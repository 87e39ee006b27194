-- ===== src/Jitter/Results.antt =====
-- `pp_results` of osjitter.c: the rows that it prints, as records.
pub mod Ordered
pub mod Rows
use Prim.Native.Nat.{zero, suc}
use osjitter.Prelude.{
  ℕ, ◌+◌, ◌-◌, ◌≡◌, refl, Bool, true, false, not, List, [], ◌∷◌, Option, none, some, get_or, take,
  arith, ◌==◌, if◌then◌else◌,
}
use osjitter.Prelude.Int.{ℤ, pos, negsuc}
use osjitter.Prelude.Options.{◌>>=◌}
use osjitter.Prelude.Words.{sub64}
use osjitter.Util.Percentile.{percentile_u32}
use osjitter.Util.Mad.{mad_u32}
use osjitter.Util.Scale.{mul_u64_u32_shr}
use osjitter.Jitter.Args.{Args}
use osjitter.Jitter.CpuSet.{CpuSet}
use osjitter.Jitter.Measure.{Worker}

-- the statistics of a worker's deltas, in ticks
pub record Statistics : Type 0 where
  pub p20 : ℕ
  pub median : ℕ
  pub p80 : ℕ
  pub p90 : ℕ
  pub p99 : ℕ
  pub p99_9 : ℕ
  pub max : ℕ
  pub mad : ℕ

-- goes on with the percentile, unless an assertion fails
abbrev pub with_percentile : List ℕ → ℕ → ℕ → (ℕ → Option Statistics) → Option Statistics
with_percentile xs a b next = elim (percentile_u32 xs a b) [ none ↦ none | some v ↦ next v ]

abbrev pub last_of : List ℕ → ℕ → ℕ
last_of ds samples = if samples == 0 then 0 else get_or ds (samples - 1) 0

-- `none` is a failed assertion.
unfoldable pub statistics : List ℕ → ℕ → Option Statistics
statistics ds samples =
    let xs = take samples ds in
    elim (mad_u32 xs) [
      | none ↦ none
      | some mad ↦ with_percentile xs 1 2 λ median. with_percentile xs 1 5 λ p20.
          with_percentile xs 4 5 λ p80. with_percentile xs 90 100 λ p90.
            with_percentile xs 99 100 λ p99. with_percentile xs 999 1000 λ p99_9. some (record {
              p20 = p20;
              median = median;
              p80 = p80;
              p90 = p90;
              p99 = p99;
              p99_9 = p99_9;
              max = last_of ds samples;
              mad = mad;
            })
    ]

-- the same of values that `f` converts
abbrev pub map_statistics : (ℕ → ℕ) → Statistics → Statistics
map_statistics f s = record {
  p20 = f s.p20;
  median = f s.median;
  p80 = f s.p80;
  p90 = f s.p90;
  p99 = f s.p99;
  p99_9 = f s.p99_9;
  max = f s.max;
  mad = f s.mad;
}

-- a row, without the quotient of the interruptions and the measuring time
pub record Row : Type 0 where
  pub cpu : ℕ
  pub thresh_cnt : ℕ
  pub samples : ℕ
  pub ovfl_ns : ℕ
  pub invol_switch : ℕ
  pub intr_ns : ℕ
  pub loop_ns : ℕ
  -- the statistics in nanoseconds
  pub ns : Statistics

module _ (args : Args) where
  abbrev pub to_ns : ℕ → ℕ
  to_ns t = mul_u64_u32_shr t args.mult args.shift

  abbrev pub statistics_ns : Statistics → Statistics
  statistics_ns s = map_statistics to_ns s

  abbrev pub row_of : ℕ → Worker → Statistics → Row
  row_of cpu w s = record {
    cpu = cpu;
    thresh_cnt = w.thresh_cnt;
    samples = w.samples;
    ovfl_ns = if w.tsc_overflow == 0 then 0 else to_ns (sub64 w.tsc_overflow w.tsc_start);
    invol_switch = w.invol_switch;
    intr_ns = to_ns w.tsc_total_int;
    loop_ns = to_ns w.tsc_delta_min;
    ns = statistics_ns s;
  }

  unfoldable pub pp_row : ℕ → Worker → Option Row
  unfolding statistics
  pp_row cpu w = elim (statistics w.deltas w.samples) [
    | none ↦ none
    | some s ↦ some (row_of cpu w s)
  ]

  -- `n` rounds of the loop over the CPUs, from `cpu` on: the rows printed, and the return value.
  -- `memory cpu` says that `realloc` does not return a null pointer.
  unfoldable pub pp_loop : (ℕ → Bool) → ℕ → ℕ → (ℕ → Worker) → Option (List Row × ℤ)
  unfolding pp_row
  pp_loop memory zero cpu ws = some ([], pos 0)
  pp_loop memory (suc n) cpu ws =
      let rest = pp_loop memory n (cpu + 1) ws in
      if not (args.cpu_set cpu)
      then rest
      else if not (memory cpu)
      then some ([], negsuc 0)
      else do r ← pp_row cpu (ws cpu); printed ← rest; some (r ∷ printed.0, printed.1)

  unfoldable pub pp_results : (ℕ → Bool) → (ℕ → Worker) → Option (List Row × ℤ)
  unfolding pp_loop
  pp_results memory ws = pp_loop memory args.cpus 0 ws
