-- ===== src/Pingpong/Examples.antt =====
-- The theorems on pingpong.c at concrete inputs: runs of two iterations.
use Prim.Native.Nat.{zero, suc}
use osjitter.Prelude.{ℕ, ◌+◌, ◌≡◌, ◌≢◌, refl, List, [], ◌∷◌, ◌++◌, some, true, arith}
use osjitter.Prelude.Text.{codes}
use osjitter.Pingpong.Args.{
  Args, no_args, accepted, kind_in, parse_loop, set_defaults, with_defaults, parse_args,
}
use osjitter.Pingpong.Worker.{Worker, Finalized, done, spin_main_finalize}
use osjitter.Pingpong.Rally.{Event, sent, got}
use osjitter.Pingpong.Spin.{
  System, initial, move, move0, move1, event_of, finished, faulted, Reach, started, stepped, first,
  second, tick,
}
use osjitter.Pingpong.Spin.Order.{IsFresh, loaded-IsFresh}
use osjitter.Pingpong.Spin.Room.{Reach-odd}
use osjitter.Pingpong.Spin.Refines.{Rallies, Reach-Rallies}
use osjitter.Prelude.Int.{pos}
use osjitter.Pingpong.Results.{Row, reported}
use osjitter.Pingpong.Results.Ordered.{IsRow}
use osjitter.Pingpong.Control.{Creation, Joining, worker_of, can_launch, table, spin_pingpong}
use osjitter.Pingpong.Control.Laws.{Succeeds}
use osjitter.Pingpong.Control.Whole.{whole_run}

-- a run by the names of its steps: 0 and 1 for the threads, 2 for the counter
abbrev run : ℕ → List ℕ → System → List Event → System × List Event
run n [] s log = (s, log)
run n (zero ∷ steps) s log =
    run n steps (move0 n s) (event_of 0 s.thread0.pc (move0 n s).thread0.pc ++ log)
run n (suc zero ∷ steps) s log =
    run n steps (move1 n s) (event_of 1 s.thread1.pc (move1 n s).thread1.pc ++ log)
run n (suc (suc _) ∷ steps) s log = run n steps (record s { now = s.now + 100 }) log

run-Reach :
    (n : ℕ) (steps : List ℕ) (s : System) (log : List Event)
    → Reach n s log
    → let (s', log') = run n steps s log in Reach n s' log'
run-Reach n [] s log r = r
run-Reach n (zero ∷ steps) s log r = run-Reach n steps _ _ (stepped r first)
run-Reach n (suc zero ∷ steps) s log r = run-Reach n steps _ _ (stepped r second)
run-Reach n (suc (suc _) ∷ steps) s log r = run-Reach n steps _ _ (stepped r (tick 100))

-- thread 0 stores, and thread 1 loads
abbrev notified : System × List Event
notified = run 2 (0 ∷ 0 ∷ 0 ∷ 1 ∷ 1 ∷ []) (initial 2 5) []

notified-Reach : Reach 2 notified.0 notified.1
notified-Reach = run-Reach 2 (0 ∷ 0 ∷ 0 ∷ 1 ∷ 1 ∷ []) (initial 2 5) [] (started 5)

-- both iterations, to the end of the loops
abbrev all_steps : List ℕ
all_steps = 0 ∷ 0 ∷ 0 ∷ 1 ∷ 1 ∷ 2 ∷ 1 ∷ 1 ∷ 1 ∷ 1 ∷ 0 ∷ 0 ∷ 2 ∷ 0 ∷ 0 ∷ 1 ∷ []

abbrev ended : System
ended = (run 2 all_steps (initial 2 5) []).0

abbrev ended_log : List Event
ended_log = (run 2 all_steps (initial 2 5) []).1

ended-Reach : Reach 2 ended ended_log
ended-Reach = run-Reach 2 all_steps (initial 2 5) [] (started 5)

ended_log_lists : ended_log ≡ got 0 105 ∷ sent 1 105 ∷ got 1 5 ∷ sent 0 5 ∷ []
unfolding move
ended_log_lists = refl

ended0 : ended.thread0.pc ≡ finished
unfolding move
ended0 = refl

ended1 : ended.thread1.pc ≡ finished
unfolding move
ended1 = refl

ended_deltas : (ended.thread0.locals.ds ≡ 100 ∷ []) × (ended.thread1.locals.ds ≡ 100 ∷ [])
unfolding move osjitter.Pingpong.Worker.received
ended_deltas = (refl, refl)

abbrev worker : ℕ → Worker
worker init = record { init = init; n = 2; k = 1000; p = 0; raw_ds = []; ds = []; ds_size = 0 }

Reach-Rallies_example : Rallies 2 ended ended_log
Reach-Rallies_example = Reach-Rallies 2 ended ended_log ended-Reach

loaded-IsFresh_example :
    let s = notified.0 in
    IsFresh s.now s.cell0 s.thread0.pc s.thread0.locals
    × IsFresh s.now s.cell1 s.thread1.pc s.thread1.locals
loaded-IsFresh_example = loaded-IsFresh 2 notified.0 notified.1 notified-Reach (omega arith)

-- one iteration: thread 1 is the receiver, and its array is empty
abbrev odd_steps : List ℕ
odd_steps = 0 ∷ 0 ∷ 0 ∷ 1 ∷ 1 ∷ 1 ∷ []

abbrev odd_run : System
odd_run = (run 1 odd_steps (initial 1 5) []).0

abbrev odd_log : List Event
odd_log = (run 1 odd_steps (initial 1 5) []).1

odd_run_faults : odd_run.thread1.pc ≡ faulted
unfolding move osjitter.Pingpong.Worker.received
odd_run_faults = refl

Reach-odd_example : odd_run.thread1.pc ≢ finished
Reach-odd_example =
    Reach-odd 1 odd_run odd_log refl (run-Reach 1 odd_steps (initial 1 5) [] (started 5))

abbrev arguments : List (List ℕ)
arguments = codes "--spin-pause" ∷ codes "-p" ∷ codes "7" ∷ []

abbrev parsed : Args
parsed = record no_args {
  n = 1000000;
  k = 1000;
  p = 7;
  method = osjitter.Pingpong.Args.spin_pause_more;
}

parse_args_accepts : parse_args arguments ≡ accepted parsed
unfolding parse_args osjitter.Util.Atoi.atoi
parse_args_accepts = refl

-- the control thread, with two iterations at 1 GHz
abbrev played_args : Args
played_args = record no_args { tsc_khz = 1000000; mult = 2147483648; shift = 31; n = 2; pin1 = 4 }

abbrev all_succeed : ℕ → Creation
all_succeed i = record {
  inits = true;
  pins = true;
  prepares = true;
  creates = true;
  destroys = true;
}

abbrev reported_worker : ℕ → Worker
reported_worker i = record (worker_of played_args i) {
  raw_ds = 100 ∷ [];
  ds = 100 ∷ [];
  ds_size = 1;
}

abbrev joining : ℕ → Joining
joining i = record { joins = true; result = some (reported_worker i) }

all_Succeed : Succeeds played_args 0 (all_succeed 0) × Succeeds played_args 1 (all_succeed 1)
unfolding can_launch
all_Succeed = ((refl, refl), (refl, refl))

finalized :
    (spin_main_finalize true
        (worker_of played_args 0)
        ended.thread0.locals.ds
        ended.thread0.locals.j
      ≡ done (reported_worker 0))
    × (spin_main_finalize true
          (worker_of played_args 1)
          ended.thread1.locals.ds
          ended.thread1.locals.j
        ≡ done (reported_worker 1))
unfolding move osjitter.Pingpong.Worker.received spin_main_finalize osjitter.Util.Sort.qsort
finalized = (refl, refl)

whole_run_example :
    let p = spin_pingpong played_args all_succeed (joining 0) (joining 1) (λ i. true) in
    (r0 r1 : Row) × (p.status ≡ 0)
    × (p.output ≡ some (table (reported (r0 ∷ r1 ∷ []) (pos 0))))
    × IsRow 0 1 r0
    × IsRow 1 1 r1
whole_run_example =
    whole_run played_args all_succeed (joining 0) (joining 1) (λ i. true) ended ended_log
      (reported_worker 0) (reported_worker 1) (refl, omega arith, omega arith, refl) all_Succeed
      ended-Reach (ended0, ended1) finalized
      (((omega arith, tt), omega arith), ((omega arith, tt), omega arith)) (refl, refl, refl, refl)
      (refl, refl)
