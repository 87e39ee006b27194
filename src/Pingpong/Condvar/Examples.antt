-- ===== src/Pingpong/Condvar/Examples.antt =====
-- The theorems on the condition variable threads of pingpong.c at a concrete run.
use Prim.Native.Nat.{zero, suc}
use osjitter.Prelude.{ℕ, ◌+◌, ◌≡◌, refl, List, [], ◌∷◌, ◌++◌}
use osjitter.Pingpong.Worker.{usual}
use osjitter.Pingpong.Rally.{Event, sent, got}
use osjitter.Pingpong.Condvar.{
  System, initial, move, moved0, moved1, move0, move1, event_of, finished, Reach, started, stepped,
  first, second, tick,
}
use osjitter.Pingpong.Condvar.Refines.{Played, Reach-Played}
use osjitter.Pingpong.Condvar.Races.{IsExclusive, Reach-IsExclusive}
use osjitter.Pingpong.Condvar.Progress.{IsLive, Reach-IsLive}

-- a run by the names of its steps: 0 and 1 for the threads, 2 for the counter; no call fails
abbrev run : ℕ → List ℕ → System → List Event → System × List Event
run n [] s log = (s, log)
run n (zero ∷ steps) s log =
    run n steps (move0 n usual s) (event_of 0 s.thread0.pc (moved0 n usual s).thread.pc ++ log)
run n (suc zero ∷ steps) s log =
    run n steps (move1 n usual s) (event_of 1 s.thread1.pc (moved1 n usual s).thread.pc ++ log)
run n (suc (suc _) ∷ steps) s log = run n steps (record s { now = s.now + 100 }) log

run-Reach :
    (n : ℕ) (steps : List ℕ) (s : System) (log : List Event)
    → Reach n s log
    → let (s', log') = run n steps s log in Reach n s' log'
run-Reach n [] s log r = r
run-Reach n (zero ∷ steps) s log r = run-Reach n steps _ _ (stepped r (first usual))
run-Reach n (suc zero ∷ steps) s log r = run-Reach n steps _ _ (stepped r (second usual))
run-Reach n (suc (suc _) ∷ steps) s log r = run-Reach n steps _ _ (stepped r (tick 100))

-- Thread 1 waits for its signal, thread 0 sends; then thread 1 sends, and both come to their end.
abbrev all_steps : List ℕ
all_steps =
    1 ∷ 1 ∷ 1 ∷ 1 ∷ 0 ∷ 0 ∷ 0 ∷ 0 ∷ 0 ∷ 0 ∷ 1 ∷ 1 ∷ 1 ∷ 1 ∷ 1 ∷ 2 ∷ 1 ∷ 1 ∷ 1 ∷ 1 ∷ 1 ∷ 1 ∷ 1 ∷ 1
    ∷ 0 ∷ 0 ∷ 0 ∷ 0 ∷ 0 ∷ 0 ∷ 0 ∷ []

abbrev ended : System
ended = (run 2 all_steps (initial 2 5) []).0

abbrev ended_log : List Event
ended_log = (run 2 all_steps (initial 2 5) []).1

ended-Reach : Reach 2 ended ended_log
ended-Reach = run-Reach 2 all_steps (initial 2 5) [] (started 5)

both_finished :
    (ended.thread0.pc ≡ finished)
    × (ended.thread1.pc ≡ finished)
    × (ended_log ≡ got 0 105 ∷ sent 1 105 ∷ got 1 5 ∷ sent 0 5 ∷ [])
unfolding move
both_finished = (refl, refl, refl)

Reach-Played_example : Played 2 ended ended_log
Reach-Played_example = Reach-Played 2 ended ended_log ended-Reach

Reach-IsExclusive_example : IsExclusive ended.thread0 ended.thread1
Reach-IsExclusive_example = Reach-IsExclusive 2 ended ended_log ended-Reach

Reach-IsLive_example : IsLive ended.thread0 ended.thread1 ended.item0 ended.item1
Reach-IsLive_example = Reach-IsLive 2 ended ended_log ended-Reach
