-- ===== src/Jitter/Control/Phases.antt =====
-- The phases of osjitter.c: creating the workers, reading the scheduler's counters, printing.
use osjitter.Prelude.{ℕ, ◌<◌, ◌≡◌, refl, true, false, arith}
use mathlib.Core.Path.{subst}
use osjitter.Jitter.CpuSet.{CpuSet}
use osjitter.Jitter.Control.{
  Status, returned_null, returned, creating, reading, printing, System, Reach,
}
use osjitter.Jitter.Control.Order.{IsIdle, IsUnpublished, IsCreated, IsJoined}
use osjitter.Jitter.Control.Runs.{Inv, Reach-Inv}

-- While the control thread reads the counters of a selected CPU's worker, this worker has been
-- created, and has neither begun to store its results nor returned them.
pub reading-IsUnpublished :
    (cpus : ℕ) (cpu_set : CpuSet) (s : System) (k : ℕ)
    → Reach cpus cpu_set s
    → s.pc ≡ reading k
    → k < cpus
    → cpu_set k ≡ true
    → IsUnpublished (s.workers k) × IsCreated (s.workers k)
reading-IsUnpublished cpus cpu_set s k r e lt on =
    let (_, unpub, made) =
      subst (λ pc. Inv cpus cpu_set pc s.start_work s.quit_thread s.workers) e
        (Reach-Inv cpus cpu_set s r) in
    (unpub k, made k lt on)

IsJoined-returned : (st : Status) → IsJoined false st → st ≡ returned
IsJoined-returned returned h = refl
IsJoined-returned returned_null h = ground arith
IsJoined-returned _ h = ground arith

-- When the control thread prints the rows, every selected CPU's worker has returned its results.
pub printing-returned :
    (cpus : ℕ) (cpu_set : CpuSet) (s : System) (k : ℕ)
    → Reach cpus cpu_set s
    → s.pc ≡ printing
    → k < cpus
    → cpu_set k ≡ true
    → s.workers k ≡ returned
printing-returned cpus cpu_set s k r e lt on =
    let joined =
      subst (λ pc. Inv cpus cpu_set pc s.start_work s.quit_thread s.workers) e
        (Reach-Inv cpus cpu_set s r) in
    IsJoined-returned (s.workers k) (joined k lt on)

-- While the control thread has not created every selected worker, no worker measures.
pub creating-IsIdle :
    (cpus : ℕ) (cpu_set : CpuSet) (s : System) (k j : ℕ)
    → Reach cpus cpu_set s
    → s.pc ≡ creating k
    → IsIdle (s.workers j)
creating-IsIdle cpus cpu_set s k j r e =
    let (_, _, idle, _) =
      subst (λ pc. Inv cpus cpu_set pc s.start_work s.quit_thread s.workers) e
        (Reach-Inv cpus cpu_set s r) in
    idle j
