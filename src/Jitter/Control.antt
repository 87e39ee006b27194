-- ===== src/Jitter/Control.antt =====
-- The control thread of osjitter.c, `main` from `create_workers` on, and the threads that run
-- `worker_main`: how they wait for each other. A step of a thread is one store or load of `start_work`
-- or `quit_thread`, one call, or a stretch that only the thread itself sees.
pub mod Order
pub mod Runs
pub mod Phases
mod Examples
use osjitter.Prelude.{
  ℕ, ◌+◌, ◌≡◌, refl, Bool, true, false, not, ◌||◌, arith, ltb, ◌==◌, if◌then◌else◌,
}
use osjitter.Jitter.CpuSet.{CpuSet}

-- where a worker stands
pub data Status : Type 0 where
  -- not created
  absent : Status
  -- before `calloc`
  allocating : Status
  -- waiting for `start_work`
  spinning : Status
  -- between the loops
  measuring : Status
  -- waiting for `quit_thread`
  holding : Status
  -- storing its results
  publishing : Status
  -- behind its return, of NULL or of its `Worker`
  returned_null returned : Status

-- A step of a worker; `ok` says whether `calloc` succeeds.
unfoldable pub worker_step : Bool → Bool → Bool → Status → Status
worker_step ok start quit allocating = if ok then spinning else returned_null
worker_step ok start quit spinning = if start then measuring else spinning
worker_step ok start quit measuring = holding
worker_step ok start quit holding = if quit then publishing else holding
worker_step ok start quit publishing = returned
worker_step ok start quit st = st

-- where the control thread stands
pub data Pc : Type 0 where
  -- in `create_workers`, before the CPU k
  creating : ℕ → Pc
  -- before the store of `start_work`
  starting : Pc
  -- in `nanosleep`
  sleeping : Pc
  -- before `read_proc_sched` of the CPU k
  reading : ℕ → Pc
  -- before the store of `quit_thread`
  quitting : Pc
  -- in `join_workers`, before the CPU k, with `error_in_thread`
  joining : ℕ → Bool → Pc
  -- in `pp_results`
  printing : Pc
  -- behind `return 1`
  failed : Pc

pub record System : Type 0 where
  pub pc : Pc
  pub start_work : Bool
  pub quit_thread : Bool
  pub workers : ℕ → Status

abbrev pub update : (ℕ → Status) → ℕ → Status → ℕ → Status
update ws k st j = if j == k then st else ws j

-- `pthread_join`, which waits until the worker has returned, and `error_in_thread` behind it
abbrev pub join : Bool → ℕ → Status → Pc
join bad k returned = joining (k + 1) bad
join bad k returned_null = joining (k + 1) true
join bad k _ = joining k bad

module _ (cpus : ℕ) (cpu_set : CpuSet) where
  -- A step of the control thread; `ok` says whether its calls succeed.
  unfoldable pub control_step : Bool → Pc → System → System
  control_step ok (creating k) s =
      if ltb k cpus
      then if cpu_set k
        then if ok
          then (record s { pc = creating (k + 1); workers = update s.workers k allocating })
          else (record s { pc = failed })
        else (record s { pc = creating (k + 1) })
      else (record s { pc = starting })
  control_step ok starting s = record s { pc = sleeping; start_work = true }
  control_step ok sleeping s = record s { pc = if ok then reading 0 else failed }
  control_step ok (reading k) s = record s {
    pc =
        if ltb k cpus
        then if cpu_set k then if ok then reading (k + 1) else failed else reading (k + 1)
        else quitting;
  }
  control_step ok quitting s = record s { pc = joining 0 false; quit_thread = true }
  control_step ok (joining k bad) s = record s {
    pc =
        if ltb k cpus
        then if cpu_set k
          then if ok then join bad k (s.workers k) else failed
          else joining (k + 1) bad
        else if bad
        then failed
        else printing;
  }
  control_step ok pc s = record s { pc = pc }

  abbrev pub move_worker : Bool → ℕ → System → System
  move_worker ok k s = record s {
    workers = update s.workers k (worker_step ok s.start_work s.quit_thread (s.workers k));
  }

  pub data Step : System → System → Type 0 where
    control : {s : System} → (ok : Bool) → Step s (control_step ok s.pc s)
    worker : {s : System} → (ok : Bool) (k : ℕ) → Step s (move_worker ok k s)

  pub data Reach : System → Type 0 where
    started :
        Reach (record {
          pc = creating 0;
          start_work = false;
          quit_thread = false;
          workers = λ k. absent;
        })
    stepped : {s s' : System} → Reach s → Step s s' → Reach s'
