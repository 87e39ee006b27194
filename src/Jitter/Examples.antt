-- ===== src/Jitter/Examples.antt =====
-- The theorems on osjitter.c at concrete inputs.
use osjitter.Prelude.{ℕ, ◌≡◌, refl, some, List, [], ◌∷◌, true, arith}
use osjitter.Jitter.Measure.{
  Worker, Limits, Loop, uint32_max, uint64_max, first_round, loop_round, finished, worker_main,
  idle,
}
use osjitter.Jitter.Args.{Args, no_args}
use osjitter.Prelude.Text.{codes}
use osjitter.Prelude.Int.{pos}
use osjitter.Jitter.CpuSet
use osjitter.Jitter.CpuSet.{cpu_zero}
use osjitter.Jitter.Results.{Row, pp_results}
use osjitter.Jitter.Results.Rows.{cpus_of, AreOrdered, pp_results-AreOrdered}
use osjitter.Jitter.Measure.Log.{smallest}
use osjitter.Jitter.Measure.Result.{Reports, loop_events, log_of, worker_main-Reports}
use osjitter.Jitter.Measure.Long.{long_round}

abbrev limits : Limits
limits = record { samples = 2; tsc_thresh = 100; tsc_runtime = 600 }

abbrev later : List ℕ
later = 1060 ∷ 1560 ∷ 1600 ∷ 1900 ∷ []

worker_main-Reports_example :
    (w : Worker) × (worker_main true limits 1000 (1030 ∷ later) idle ≡ finished w)
    × Reports 2 1000
        (smallest uint64_max (loop_events limits 1000 1030 later))
        (log_of limits 1000 1030 later)
        w
worker_main-Reports_example =
    worker_main-Reports limits 1000 1030 later (omega arith) (omega arith) (omega arith) 2 idle
      (omega arith) (omega arith)

abbrev measured : Worker
measured = record idle {
  deltas = 470 ∷ 0 ∷ [];
  samples = 1;
  thresh_cnt = 1;
  tsc_start = 1000;
  tsc_total_int = 470;
  tsc_delta_min = 30;
}

abbrev started : Loop
started = record {
  i = 0;
  ds = 0 ∷ 0 ∷ [];
  total = 0;
  overflow = 0;
  delta_min = uint64_max;
  tsc = 1000;
}

long_round_example :
    ((loop_round 2 100 4294968326 started).i ≡ 0)
    × ((loop_round 2 100 4294968326 started).ds ≡ 0 ∷ 0 ∷ [])
    × ((loop_round 2 100 4294968326 started).total ≡ 0)
    × ((first_round 2 100 4294968326 started).i ≡ 1)
    × ((first_round 2 100 4294968326 started).ds ≡ uint32_max ∷ 0 ∷ [])
    × ((first_round 2 100 4294968326 started).total ≡ 4294967326)
long_round_example =
    long_round 2 100 4294968326 started (omega arith) (omega arith) (omega arith) (omega arith)
      (omega arith) (omega arith)

-- CPU 1 of two is selected.
abbrev row_args : Args
row_args = record no_args {
  cpus = 2;
  cpu_set = CpuSet.cpu_set 1 cpu_zero;
  tsc_khz = 2200000;
  mult = 1_952_257_862;
  shift = 32;
}

pp_results-AreOrdered_example :
    (rows : List Row) × (pp_results row_args (λ c. true) (λ c. measured) ≡ some (rows, pos 0))
    × (cpus_of rows ≡ 1 ∷ [])
    × AreOrdered rows
pp_results-AreOrdered_example =
    pp_results-AreOrdered row_args (λ c. true) (λ c. measured)
      (λ cpu set. (refl, (omega arith, omega arith, omega arith, omega arith, omega arith)))

abbrev sched_file : List ℕ
sched_file =
    codes "nr_switches : 12\nnr_voluntary_switches : 5\nnr_involuntary_switches : 7\nprio : 120\n"
