-- ===== src/Jitter/Control/Examples.antt =====
-- The theorems on the control thread of osjitter.c at a concrete run.
use Prim.Native.Nat.{zero, suc}
use osjitter.Prelude.{ℕ, ◌≡◌, ◌==◌, refl, List, [], ◌∷◌, true, false, arith}
use osjitter.Jitter.CpuSet.{CpuSet}
use osjitter.Jitter.Control.{
  absent, returned, worker_step, creating, reading, printing, System, control_step, move_worker,
  control, worker, Reach, started, stepped,
}
use osjitter.Jitter.Control.Order.{IsUnpublished, IsCreated}
use osjitter.Jitter.Control.Phases.{reading-IsUnpublished, printing-returned}

-- of two CPUs the second is selected
abbrev second_only : CpuSet
second_only k = k == 1

abbrev first_state : System
first_state = record {
  pc = creating 0;
  start_work = false;
  quit_thread = false;
  workers = λ k. absent;
}

-- a run by the names of its steps: 0 for the control thread, 1 for the worker of CPU 1
abbrev run : List ℕ → System → System
run [] s = s
run (zero ∷ steps) s = run steps (control_step 2 second_only true s.pc s)
run (suc _ ∷ steps) s = run steps (move_worker 2 second_only true 1 s)

run-Reach :
    (steps : List ℕ) (s : System) → Reach 2 second_only s → Reach 2 second_only (run steps s)
run-Reach [] s r = r
run-Reach (zero ∷ steps) s r =
    run-Reach steps (control_step 2 second_only true s.pc s) (stepped r (control true))
run-Reach (suc _ ∷ steps) s r =
    run-Reach steps (move_worker 2 second_only true 1 s) (stepped r (worker true 1))

-- to the read of the counters of CPU 1
abbrev to_read : List ℕ
to_read = 0 ∷ 0 ∷ 0 ∷ 1 ∷ 0 ∷ 1 ∷ 1 ∷ 0 ∷ 0 ∷ []

abbrev to_end : List ℕ
to_end = 0 ∷ 0 ∷ 0 ∷ 1 ∷ 0 ∷ 1 ∷ 1 ∷ 0 ∷ 0 ∷ 0 ∷ 0 ∷ 0 ∷ 1 ∷ 1 ∷ 0 ∷ 0 ∷ 0 ∷ []

reads : (run to_read first_state).pc ≡ reading 1
unfolding control_step worker_step
reads = refl

prints : (run to_end first_state).pc ≡ printing
unfolding control_step worker_step
prints = refl

reading-IsUnpublished_example :
    IsUnpublished ((run to_read first_state).workers 1)
    × IsCreated ((run to_read first_state).workers 1)
reading-IsUnpublished_example =
    reading-IsUnpublished 2 second_only (run to_read first_state) 1
      (run-Reach to_read first_state started) reads (omega arith) refl

printing-returned_example : (run to_end first_state).workers 1 ≡ returned
printing-returned_example =
    printing-returned 2 second_only (run to_end first_state) 1
      (run-Reach to_end first_state started) prints (omega arith) refl
