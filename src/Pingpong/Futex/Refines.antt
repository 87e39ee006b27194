-- ===== src/Pingpong/Futex/Refines.antt =====
-- The threads of pingpong.c that share futexes refine the rally.
use Prim.Native.Nat.{suc}
use osjitter.Prelude.{ℕ, ◌%◌, ◌≤◌, ◌≡◌, ◌⊎◌, inl, inr, refl, Bool, true, false, List, arith}
use osjitter.Pingpong.Worker.{Locals}
use osjitter.Pingpong.Rally.{Event, Rally}
use osjitter.Pingpong.Futex.{
  Pc, timing, storing, giving, loading, loaded, unlocking, faulted, Thread, Follicle, System, Reach,
}
use osjitter.Pingpong.Futex.Phases.{
  Sends, Receives, HeldLog, GotLog, Turn, free, held, given, taken,
}
use osjitter.Pingpong.Futex.Order.{Reach-InPhase}

-- The rally that a run has played: what is under way is the time in the receiver's follicle.
abbrev pub Carries : ℕ → System → List Event → Type 0
Carries n s log =
    (k last : ℕ) × (flying : Bool) × (k ≤ n)
    × Rally k last flying log
    × (flying ≡ true
        → ((k % 2 ≡ 0) × (s.follicle0.tsc ≡ last)) ⊎ ((k % 2 ≡ 1) × (s.follicle1.tsc ≡ last)))

-- the same in a turn, by the receiver's follicle
abbrev TurnCarries : ℕ → ℕ → Follicle → List Event → Type 0
TurnCarries n k fr log =
    (m last : ℕ) × (flying : Bool) × (m ≤ n)
    × Rally m last flying log
    × (flying ≡ true → (m ≡ suc k) × (fr.tsc ≡ last))

held-Carries :
    (n now k : ℕ) (pc : Pc) (l : Locals) (fr : Follicle) (log : List Event)
    → suc k ≤ n
    → Sends now fr.tsc pc l
    → HeldLog k fr.tsc pc l log
    → TurnCarries n k fr log
held-Carries n now k timing l fr log room h rally = (k, l.tsc, false, omega arith, rally, λ e. cc)
held-Carries n now k (storing t) l fr log room h rally =
    (k, l.tsc, false, omega arith, rally, λ e. cc)
held-Carries n now k giving l fr log room h rally =
    (suc k, fr.tsc, true, room, rally, λ e. (refl, refl))
held-Carries n now k _ l fr log room h rally = ground arith

taken-Carries :
    (n last k : ℕ) (pc : Pc) (l : Locals) (fr : Follicle) (log : List Event)
    → suc k ≤ n
    → Receives last fr.tsc pc l
    → GotLog k fr.tsc pc log
    → TurnCarries n k fr log
taken-Carries n last k loading l fr log room h rally =
    (suc k, fr.tsc, true, room, rally, λ e. (refl, refl))
taken-Carries n last k (loaded v) l fr log room h rally =
    (suc k, fr.tsc, false, room, rally, λ e. cc)
taken-Carries n last k unlocking l fr log room h rally =
    (suc k, fr.tsc, false, room, rally, λ e. cc)
taken-Carries n last k faulted l fr log room h rally = (suc k, fr.tsc, false, room, rally, λ e. cc)
taken-Carries n last k _ l fr log room h rally = ground arith

Turn-Carries :
    (n now k : ℕ) (s r : Thread) (fs fr : Follicle) (log : List Event)
    → Turn n now log k s r fs fr
    → TurnCarries n k fr log
Turn-Carries n now k s r fs fr log (free (_, _, room, _, _, _) rally) =
    (k, s.locals.tsc, false, room, rally, λ e. cc)
Turn-Carries n now k s r fs fr log (held (_, _, _, _, more, sends, _) rally) =
    held-Carries n now k s.pc s.locals fr log (omega arith) sends rally
Turn-Carries n now k s r fs fr log (given (_, _, _, more, _, _, _, _) rally) =
    (suc k, fr.tsc, true, omega arith, rally, λ e. (refl, refl))
Turn-Carries n now k s r fs fr log (taken (_, _, _, more, _, _, _, receives) rally) =
    taken-Carries n s.locals.tsc k r.pc r.locals fr log (omega arith) receives rally

-- In every run, whichever calls fail, the events are those of a rally of at most n notifications, and
-- the receiver's follicle holds the time of the notification that is under way.
pub Reach-Carries : (n : ℕ) (s : System) (log : List Event) → Reach n s log → Carries n s log
Reach-Carries n s log r =
    let (k, turns) = Reach-InPhase n s log r in
    elim turns [
      | inl (even, t) ↦
          let (m, last, flying, room, rally, there) =
            Turn-Carries n s.now k s.thread0 s.thread1 s.follicle0 s.follicle1 log t in
          (m, last, flying, room, rally, λ e. let (same, time) = there e in inr (omega arith, time))
      | inr (odd, t) ↦
          let (m, last, flying, room, rally, there) =
            Turn-Carries n s.now k s.thread1 s.thread0 s.follicle1 s.follicle0 log t in
          (m, last, flying, room, rally, λ e. let (same, time) = there e in inl (omega arith, time))
    ]
