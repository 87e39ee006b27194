-- ===== src/Pingpong/Pipe/Examples.antt =====
-- The theorems on the pipe threads of pingpong.c at a concrete run.
use Prim.Native.Nat.{zero, suc}
use osjitter.Prelude.{ℕ, ◌+◌, ◌*◌, ◌≤◌, ◌≡◌, ◌⊎◌, refl, List, [], ◌∷◌, ◌++◌, true}
use osjitter.Pingpong.Rally.{Event, sent, got}
use osjitter.Pingpong.Pipe.{
  System, initial, move, moved0, moved1, move0, move1, event_of, finished, Reach, started, stepped,
  first, second, tick,
}
use osjitter.Pingpong.Pipe.Refines.{Plays, Reach-Plays}
use osjitter.Pingpong.Pipe.Effort.{effort}
use osjitter.Pingpong.Pipe.Ends.{IsOver, CanGoOn, Reach-terminates}

-- a run by the names of its steps: 0 and 1 for the threads, 2 for the counter; no call fails
abbrev run : ℕ → List ℕ → System → List Event → System × List Event
run n [] s log = (s, log)
run n (zero ∷ steps) s log =
    run n steps (move0 n true s) (event_of 0 s.thread0.pc (moved0 n true s).thread.pc ++ log)
run n (suc zero ∷ steps) s log =
    run n steps (move1 n true s) (event_of 1 s.thread1.pc (moved1 n true s).thread.pc ++ log)
run n (suc (suc _) ∷ steps) s log = run n steps (record s { now = s.now + 100 }) log

run-Reach :
    (n : ℕ) (steps : List ℕ) (s : System) (log : List Event)
    → Reach n s log
    → let (s', log') = run n steps s log in Reach n s' log'
run-Reach n [] s log r = r
run-Reach n (zero ∷ steps) s log r = run-Reach n steps _ _ (stepped r (first true))
run-Reach n (suc zero ∷ steps) s log r = run-Reach n steps _ _ (stepped r (second true))
run-Reach n (suc (suc _) ∷ steps) s log r = run-Reach n steps _ _ (stepped r (tick 100))

-- Thread 1 waits, thread 0 writes; then thread 1 writes, and both come to their end.
abbrev all_steps : List ℕ
all_steps = 1 ∷ 0 ∷ 0 ∷ 0 ∷ 1 ∷ 2 ∷ 1 ∷ 0 ∷ 1 ∷ 1 ∷ 1 ∷ 0 ∷ 0 ∷ 0 ∷ 1 ∷ []

abbrev ended : System
ended = (run 2 all_steps (initial 2 5) []).0

abbrev ended_log : List Event
ended_log = (run 2 all_steps (initial 2 5) []).1

ended-Reach : Reach 2 ended ended_log
ended-Reach = run-Reach 2 all_steps (initial 2 5) [] (started 5)

both_finished :
    (ended.thread0.pc ≡ finished)
    × (ended.thread1.pc ≡ finished)
    × (ended_log ≡ got 0 105 ∷ sent 1 105 ∷ got 1 5 ∷ sent 0 5 ∷ [])
unfolding move
both_finished = (refl, refl, refl)

Reach-Plays_example : Plays 2 (ended.pipe0 ++ ended.pipe1) ended_log
Reach-Plays_example = Reach-Plays 2 ended ended_log ended-Reach

Reach-terminates_example : (effort 2 ended-Reach ≤ 6 * 2 + 6) × (IsOver ended ⊎ CanGoOn 2 ended)
Reach-terminates_example = Reach-terminates 2 ended ended_log ended-Reach
