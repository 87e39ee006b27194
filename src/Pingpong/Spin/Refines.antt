-- ===== src/Pingpong/Spin/Refines.antt =====
-- The spinning threads of pingpong.c refine the rally.
use Prim.Native.Nat.{suc}
use osjitter.Prelude.{ℕ, ◌%◌, ◌≤◌, ◌≡◌, ◌⊎◌, inl, inr, refl, Bool, true, false, List, arith}
use osjitter.Pingpong.Rally.{Event, Rally}
use osjitter.Pingpong.Spin.{Thread, System, Reach}
use osjitter.Pingpong.Spin.Turns.{Turn, is_flying}
use osjitter.Pingpong.Spin.Order.{Reach-TakeTurns}
use osjitter.Pingpong.Spin.Room.{Reach-Counts}

-- The rally that a run has played: what is under way is the time in the receiver's cell.
abbrev pub Rallies : ℕ → System → List Event → Type 0
Rallies n s log =
    (k last : ℕ) × (flying : Bool) × (k ≤ n)
    × Rally k last flying log
    × (flying ≡ true → ((k % 2 ≡ 0) × (s.cell0 ≡ last)) ⊎ ((k % 2 ≡ 1) × (s.cell1 ≡ last)))

-- the same in a turn, by the receiver's cell
abbrev TurnRallies : ℕ → ℕ → ℕ → List Event → Type 0
TurnRallies n k cell_r log =
    (m last : ℕ) × (flying : Bool) × (m ≤ n)
    × Rally m last flying log
    × (flying ≡ true → (m ≡ suc k) × (cell_r ≡ last))

Turn-Rallies :
    (n now k : ℕ) (s r : Thread) (cell_s cell_r : ℕ) (log : List Event)
    → r.locals.i ≤ n
    → Turn n now log k s r cell_s cell_r
    → TurnRallies n k cell_r log
Turn-Rallies n now k s r cell_s cell_r log room (inl ((_, i, _, _, _, _, _), rally)) =
    (k, s.locals.tsc, false, omega (arith, i), rally, λ e. cc)
Turn-Rallies n now k s r cell_s cell_r log room (inr ((_, _, more, _, _, _, _, _, _), rally)) =
    (suc k, cell_r, is_flying r.pc, omega arith, rally, λ e. (refl, refl))

-- In every run the events are those of a rally of at most n notifications, and the receiver's cell
-- holds the time of the notification that is under way.
pub Reach-Rallies : (n : ℕ) (s : System) (log : List Event) → Reach n s log → Rallies n s log
Reach-Rallies n s log r =
    let ((_, room0, _, _), (_, room1, _, _)) = Reach-Counts n s log r in
    let (k, turns) = Reach-TakeTurns n s log r in
    elim turns [
      | inl (even, t) ↦
          let (m, last, flying, room, rally, there) =
            Turn-Rallies n s.now k s.thread0 s.thread1 s.cell0 s.cell1 log room1 t in
          (m, last, flying, room, rally, λ e. let (same, time) = there e in inr (omega arith, time))
      | inr (odd, t) ↦
          let (m, last, flying, room, rally, there) =
            Turn-Rallies n s.now k s.thread1 s.thread0 s.cell1 s.cell0 log room0 t in
          (m, last, flying, room, rally, λ e. let (same, time) = there e in inl (omega arith, time))
    ]
