-- ===== src/Jitter/ArgsExamples.antt =====
-- The theorems on the arguments and the parameters of osjitter.c at concrete inputs.
use osjitter.Prelude.{
  ℕ, ◌+◌, ◌*◌, ◌/◌, ◌≤◌, ◌<◌, ◌≡◌, ◌↔◌, refl, List, [], ◌∷◌, some, true, arith, ◌==◌, if◌then◌else◌,
}
use osjitter.Prelude.Int.{pos}
use osjitter.Prelude.Text.{codes}
use osjitter.Util.Khz.{missing, no_pipe}
use osjitter.Jitter.CpuSet
use osjitter.Util.Scale.{clocks_calc_mult_shift}
use osjitter.Jitter.CpuSet.{CpuSet, cpu_zero, cpu_setsize, no_cpu_below}
use osjitter.Jitter.Args.{Args, no_args, accepted, parse_cpus, parse_loop, set_defaults, parse_args}
use osjitter.Jitter.Args.Laws.{samples_wrap}
use osjitter.Jitter.Probe.{
  Lines, Memory, lines, check_cpuinfo, get_tid_off, pthread_to_tid, is_cpu_online,
}
use osjitter.Jitter.Probe.Laws.{HasLine, check_cpuinfo_iff, pthread_to_tid-get_tid_off}
use osjitter.Jitter.Params.{
  Double, System, select_cpus, select_khz, ticks_of_ns, ticks_of_s, set_params,
}
use osjitter.Jitter.Params.Calibrated.{IsCalibrated, set_params-IsCalibrated}

abbrev long_run : List (List ℕ)
long_run = codes "-t" ∷ codes "50000" ∷ []

abbrev long_args : Args
long_args = record no_args { runtime_s = 50000; thresh_ns = 100; samples = 955032704 }

long_parsed : parse_args long_run ≡ accepted long_args
unfolding parse_args osjitter.Util.Atoi.atoi osjitter.Jitter.Args.set_arg
    osjitter.Jitter.Args.flag_of
long_parsed = refl

samples_wrap_example : 955032704 < 50000 * 105000
samples_wrap_example = samples_wrap long_run long_args long_parsed (omega arith)

check_cpuinfo_iff_example :
    (check_cpuinfo (lines (codes "constant_tsc\n" ∷ codes "nonstop_tsc\n" ∷ []) true true) ≡ pos 0)
    ↔ ((true ≡ true)
        × (true ≡ true)
        × HasLine (codes "constant_tsc\n") (codes "constant_tsc\n" ∷ codes "nonstop_tsc\n" ∷ [])
        × HasLine (codes "nonstop_tsc\n") (codes "constant_tsc\n" ∷ codes "nonstop_tsc\n" ∷ []))
check_cpuinfo_iff_example =
    check_cpuinfo_iff (codes "constant_tsc\n" ∷ codes "nonstop_tsc\n" ∷ []) true true

-- the number 4711 at the offset 720
abbrev control_block : Memory
control_block p = if p == 720 then 4711 else 1

pthread_to_tid-get_tid_off_example :
    (pthread_to_tid control_block (get_tid_off control_block 4711) ≡ 4711)
    × (128 ≤ get_tid_off control_block 4711)
    × (get_tid_off control_block 4711 ≤ 128 + 4 * 148)
pthread_to_tid-get_tid_off_example =
    pthread_to_tid-get_tid_off control_block 4711 148 (omega arith) refl

-- Four CPUs whose files are missing; the set is given, and so is the frequency.
abbrev system : System
system = record {
  getpid = 4711;
  memory = control_block;
  cpus = 4;
  online = λ k. missing;
  khz_file = missing;
  journal = no_pipe;
  dmesg = no_pipe;
}

-- the CPUs 0 to 4, though there are only four
abbrev five_cpus : CpuSet
five_cpus =
    CpuSet.cpu_set 4
      (CpuSet.cpu_set 3 (CpuSet.cpu_set 2 (CpuSet.cpu_set 1 (CpuSet.cpu_set 0 cpu_zero))))

five_selected : select_cpus system cpu_zero ≡ some five_cpus
unfolding select_cpus is_cpu_online
five_selected = refl

-- Natural numbers behave like doubles that hold integers.
abbrev integers : Double
integers = record {
  D = ℕ;
  of_ℕ = λ a. a;
  mul = λ a b. a * b;
  div = λ a b. a / b;
  trunc = λ a. a;
  mul-of_ℕ = λ a b h. refl;
  trunc-of_ℕ = λ a h. refl;
}

abbrev one_cpu : Args
one_cpu = record no_args {
  cpu_set = CpuSet.cpu_set 2 cpu_zero;
  runtime_s = 10;
  thresh_ns = 100;
  tsc_khz = 2200000;
  samples = 1050000;
}

abbrev calibrated : Args
calibrated = record one_cpu {
  pid = 4711;
  tid_off = 720;
  cpus = 4;
  mult = 1_952_257_862;
  shift = 32;
  tsc_thresh = 220;
  tsc_runtime = 22_000_000_000;
}

calibrated_set : set_params integers system one_cpu ≡ some calibrated
unfolding set_params select_cpus select_khz clocks_calc_mult_shift get_tid_off ticks_of_ns
    ticks_of_s osjitter.Util.Scale.acc_loop osjitter.Util.Scale.shift_loop
    osjitter.Util.Scale.scaled
calibrated_set = refl

set_params-IsCalibrated_example :
    IsCalibrated 2200000 1_952_257_862 32 × (22_000_000_000 ≡ 2200000 * 1000 * 10)
set_params-IsCalibrated_example =
    set_params-IsCalibrated integers system one_cpu calibrated calibrated_set (omega arith)
      (omega arith) (omega arith)

abbrev features : Lines
features = lines (codes "constant_tsc\n" ∷ codes "nonstop_tsc\n" ∷ []) true true
