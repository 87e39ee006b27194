-- ===== src/Pingpong/Semaphore/Examples.antt =====
-- The theorems on the semaphore threads of pingpong.c at a concrete run.
use Prim.Native.Nat.{zero, suc}
use osjitter.Prelude.{ℕ, ◌+◌, ◌≡◌, ◌⊎◌, refl, List, [], ◌∷◌, ◌++◌, true, false}
use osjitter.Pingpong.Rally.{Event, sent, got}
use osjitter.Pingpong.Semaphore.{
  System, initial, move, moved0, moved1, move0, move1, event_of, finished, Reach, started, stepped,
  first, second, tick,
}
use osjitter.Pingpong.Semaphore.Order.{accesses, Reach-no_race}
use osjitter.Pingpong.Semaphore.Refines.{Keeps, Reach-Keeps}
use osjitter.Pingpong.Semaphore.Progress.{IsMoving, Reach-IsMoving}

-- a run by the names of its steps: 0 and 1 for the threads, 2 for the counter; no call fails
abbrev run : ℕ → List ℕ → System → List Event → System × List Event
run n [] s log = (s, log)
run n (zero ∷ steps) s log =
    run n steps (move0 n true s) (event_of 0 s.thread0.pc (moved0 n true s).thread.pc ++ log)
run n (suc zero ∷ steps) s log =
    run n steps (move1 n true s) (event_of 1 s.thread1.pc (moved1 n true s).thread.pc ++ log)
run n (suc (suc _) ∷ steps) s log = run n steps (record s { now = s.now + 100 }) log

run-Reach :
    (n : ℕ) (steps : List ℕ) (s : System) (log : List Event)
    → Reach n s log
    → let (s', log') = run n steps s log in Reach n s' log'
run-Reach n [] s log r = r
run-Reach n (zero ∷ steps) s log r = run-Reach n steps _ _ (stepped r (first true))
run-Reach n (suc zero ∷ steps) s log r = run-Reach n steps _ _ (stepped r (second true))
run-Reach n (suc (suc _) ∷ steps) s log r = run-Reach n steps _ _ (stepped r (tick 100))

-- Thread 1 waits, thread 0 posts, and both go through their second iteration.
abbrev all_steps : List ℕ
all_steps =
    1 ∷ 1 ∷ 0 ∷ 0 ∷ 0 ∷ 0 ∷ 0 ∷ 1 ∷ 1 ∷ 1 ∷ 1 ∷ 1 ∷ 1 ∷ 2 ∷ 1 ∷ 1 ∷ 1 ∷ 0 ∷ 0 ∷ 0 ∷ 0 ∷ 0 ∷ 0 ∷ 1
    ∷ []

abbrev ended : System
ended = (run 2 all_steps (initial 2 5) []).0

abbrev ended_log : List Event
ended_log = (run 2 all_steps (initial 2 5) []).1

ended-Reach : Reach 2 ended ended_log
ended-Reach = run-Reach 2 all_steps (initial 2 5) [] (started 5)

both_finished :
    (ended.thread0.pc ≡ finished)
    × (ended.thread1.pc ≡ finished)
    × (ended_log ≡ got 0 105 ∷ sent 1 105 ∷ got 1 5 ∷ sent 0 5 ∷ [])
unfolding move
both_finished = (refl, refl, refl)

Reach-no_race_example : (accesses ended.thread0.pc ≡ false) ⊎ (accesses ended.thread1.pc ≡ false)
Reach-no_race_example = Reach-no_race 2 ended ended_log ended-Reach

Reach-Keeps_example : Keeps 2 ended ended_log
Reach-Keeps_example = Reach-Keeps 2 ended ended_log ended-Reach

Reach-IsMoving_example : IsMoving ended.thread0 ended.thread1 ended.stripe0 ended.stripe1
Reach-IsMoving_example = Reach-IsMoving 2 ended ended_log ended-Reach
