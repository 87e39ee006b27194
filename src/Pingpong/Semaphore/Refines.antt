-- ===== src/Pingpong/Semaphore/Refines.antt =====
-- The threads of pingpong.c that share semaphores refine the rally.
use Prim.Native.Nat.{suc}
use osjitter.Prelude.{ℕ, ◌%◌, ◌≤◌, ◌≡◌, ◌⊎◌, inl, inr, refl, Bool, true, false, List, arith}
use osjitter.Pingpong.Worker.{Locals}
use osjitter.Pingpong.Rally.{Event, Rally}
use osjitter.Pingpong.Semaphore.{
  Pc, timing, storing, giving, loading, loaded, posting, failed, faulted, Thread, Stripe, System,
  Reach,
}
use osjitter.Pingpong.Semaphore.Phases.{
  Sends, Receives, HeldLog, GotLog, Turn, free, held, given, taken,
}
use osjitter.Pingpong.Semaphore.Order.{Reach-Alternates}

-- The rally that a run has played: what is under way is the time in the receiver's stripe.
abbrev pub Keeps : ℕ → System → List Event → Type 0
Keeps n s log =
    (k last : ℕ) × (flying : Bool) × (k ≤ n)
    × Rally k last flying log
    × (flying ≡ true
        → ((k % 2 ≡ 0) × (s.stripe0.tsc ≡ last)) ⊎ ((k % 2 ≡ 1) × (s.stripe1.tsc ≡ last)))

-- the same in a turn, by the receiver's stripe
abbrev TurnKeeps : ℕ → ℕ → Stripe → List Event → Type 0
TurnKeeps n k sr log =
    (m last : ℕ) × (flying : Bool) × (m ≤ n)
    × Rally m last flying log
    × (flying ≡ true → (m ≡ suc k) × (sr.tsc ≡ last))

held-Keeps :
    (n now k : ℕ) (pc : Pc) (l : Locals) (sr : Stripe) (log : List Event)
    → suc k ≤ n
    → Sends now sr.tsc pc l
    → HeldLog k sr.tsc pc l log
    → TurnKeeps n k sr log
held-Keeps n now k timing l sr log room h rally = (k, l.tsc, false, omega arith, rally, λ e. cc)
held-Keeps n now k (storing t) l sr log room h rally =
    (k, l.tsc, false, omega arith, rally, λ e. cc)
held-Keeps n now k giving l sr log room h rally =
    (suc k, sr.tsc, true, room, rally, λ e. (refl, refl))
held-Keeps n now k failed l sr log room h rally =
    (suc k, sr.tsc, true, room, rally, λ e. (refl, refl))
held-Keeps n now k _ l sr log room h rally = ground arith

taken-Keeps :
    (n last k : ℕ) (pc : Pc) (l : Locals) (sr : Stripe) (log : List Event)
    → suc k ≤ n
    → Receives last sr.tsc pc l
    → GotLog k sr.tsc pc log
    → TurnKeeps n k sr log
taken-Keeps n last k loading l sr log room h rally =
    (suc k, sr.tsc, true, room, rally, λ e. (refl, refl))
taken-Keeps n last k (loaded v) l sr log room h rally = (suc k, sr.tsc, false, room, rally, λ e. cc)
taken-Keeps n last k posting l sr log room h rally = (suc k, sr.tsc, false, room, rally, λ e. cc)
taken-Keeps n last k failed l sr log room h rally = (suc k, sr.tsc, false, room, rally, λ e. cc)
taken-Keeps n last k faulted l sr log room h rally = (suc k, sr.tsc, false, room, rally, λ e. cc)
taken-Keeps n last k _ l sr log room h rally = ground arith

Turn-Keeps :
    (n now k : ℕ) (s r : Thread) (ss sr : Stripe) (log : List Event)
    → Turn n now log k s r ss sr
    → TurnKeeps n k sr log
Turn-Keeps n now k s r ss sr log (free (_, _, room, _, _, _) rally) =
    (k, s.locals.tsc, false, room, rally, λ e. cc)
Turn-Keeps n now k s r ss sr log (held (_, _, _, _, more, sends, _) rally) =
    held-Keeps n now k s.pc s.locals sr log (omega arith) sends rally
Turn-Keeps n now k s r ss sr log (given (_, _, _, more, _, _, _, _) rally) =
    (suc k, sr.tsc, true, omega arith, rally, λ e. (refl, refl))
Turn-Keeps n now k s r ss sr log (taken (_, _, _, more, _, _, _, receives) rally) =
    taken-Keeps n s.locals.tsc k r.pc r.locals sr log (omega arith) receives rally

-- In every run, whichever calls fail, the events are those of a rally of at most n notifications, and
-- the receiver's stripe holds the time of the notification that is under way.
pub Reach-Keeps : (n : ℕ) (s : System) (log : List Event) → Reach n s log → Keeps n s log
Reach-Keeps n s log r =
    let (k, turns) = Reach-Alternates n s log r in
    elim turns [
      | inl (even, t) ↦
          let (m, last, flying, room, rally, there) =
            Turn-Keeps n s.now k s.thread0 s.thread1 s.stripe0 s.stripe1 log t in
          (m, last, flying, room, rally, λ e. let (same, time) = there e in inr (omega arith, time))
      | inr (odd, t) ↦
          let (m, last, flying, room, rally, there) =
            Turn-Keeps n s.now k s.thread1 s.thread0 s.stripe1 s.stripe0 log t in
          (m, last, flying, room, rally, λ e. let (same, time) = there e in inl (omega arith, time))
    ]
