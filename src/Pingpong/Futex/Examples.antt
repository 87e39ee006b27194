-- ===== src/Pingpong/Futex/Examples.antt =====
-- The theorems on the futex threads of pingpong.c at concrete inputs: runs of two iterations.
use Prim.Native.Nat.{zero, suc}
use osjitter.Prelude.{ℕ, ◌+◌, ◌≡◌, ◌≢◌, refl, List, [], ◌∷◌, ◌++◌}
use osjitter.Pingpong.Worker.{usual}
use osjitter.Pingpong.Rally.{Event, sent, got}
use osjitter.Pingpong.Futex.{
  System, initial, move, moved0, moved1, move0, move1, event_of, finished, aborted, Reach, started,
  stepped, first, second, tick,
}
use osjitter.Pingpong.Futex.Order.{InPhase, Reach-InPhase}
use osjitter.Pingpong.Futex.Refines.{Carries, Reach-Carries}
use osjitter.Pingpong.Futex.Locks.{AreUnstuck, Reach-ne-aborted, Reach-AreUnstuck}

-- a run by the names of its steps: 0 and 1 for the threads, 2 for the counter; no call fails
abbrev run : ℕ → List ℕ → System → List Event → System × List Event
run n [] s log = (s, log)
run n (zero ∷ steps) s log =
    run n steps (move0 n usual s) (event_of 0 s.thread0.pc (moved0 n usual s).thread.pc ++ log)
run n (suc zero ∷ steps) s log =
    run n steps (move1 n usual s) (event_of 1 s.thread1.pc (moved1 n usual s).thread.pc ++ log)
run n (suc (suc _) ∷ steps) s log = run n steps (record s { now = s.now + 100 }) log

run-Reach :
    (n : ℕ) (steps : List ℕ) (s : System) (log : List Event)
    → Reach n s log
    → let (s', log') = run n steps s log in Reach n s' log'
run-Reach n [] s log r = r
run-Reach n (zero ∷ steps) s log r = run-Reach n steps _ _ (stepped r (first usual))
run-Reach n (suc zero ∷ steps) s log r = run-Reach n steps _ _ (stepped r (second usual))
run-Reach n (suc (suc _) ∷ steps) s log r = run-Reach n steps _ _ (stepped r (tick 100))

-- Thread 1 sleeps, thread 0 sends and wakes it, and both go through their second iteration.
abbrev all_steps : List ℕ
all_steps =
    1 ∷ 1 ∷ 1 ∷ 0 ∷ 0 ∷ 0 ∷ 0 ∷ 0 ∷ 0 ∷ 2 ∷ 1 ∷ 1 ∷ 1 ∷ 1 ∷ 1 ∷ 1 ∷ 1 ∷ 1 ∷ 1 ∷ 1 ∷ 1 ∷ 2 ∷ 0 ∷ 0
    ∷ 0 ∷ 0 ∷ 0 ∷ 0 ∷ 0 ∷ 1 ∷ []

abbrev ended : System
ended = (run 2 all_steps (initial 2 5) []).0

abbrev ended_log : List Event
ended_log = (run 2 all_steps (initial 2 5) []).1

ended-Reach : Reach 2 ended ended_log
ended-Reach = run-Reach 2 all_steps (initial 2 5) [] (started 5)

both_finished :
    (ended.thread0.pc ≡ finished)
    × (ended.thread1.pc ≡ finished)
    × (ended_log ≡ got 0 105 ∷ sent 1 105 ∷ got 1 5 ∷ sent 0 5 ∷ [])
unfolding move
both_finished = (refl, refl, refl)

Reach-InPhase_example : InPhase 2 ended ended_log
Reach-InPhase_example = Reach-InPhase 2 ended ended_log ended-Reach

Reach-Carries_example : Carries 2 ended ended_log
Reach-Carries_example = Reach-Carries 2 ended ended_log ended-Reach

Reach-ne-aborted_example : (ended.thread0.pc ≢ aborted) × (ended.thread1.pc ≢ aborted)
Reach-ne-aborted_example = Reach-ne-aborted 2 ended ended_log ended-Reach

Reach-AreUnstuck_example : AreUnstuck ended.thread0.pc ended.thread1.pc
Reach-AreUnstuck_example = Reach-AreUnstuck 2 ended ended_log refl ended-Reach
