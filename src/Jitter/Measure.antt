-- ===== src/Jitter/Measure.antt =====
-- `worker_main` of osjitter.c: the measurement of one thread. The readings of the time-stamp counter
-- are the input: `start` by `fenced_rdtsc`, then one by `fenced_rdtscp` in each round. The waits for
-- `start_work` and `quit_thread` change no variable.
pub mod Log
pub mod Account
pub mod Result
pub mod Sum
pub mod Long
use Prim.Native.Nat.{zero, suc}
use osjitter.Prelude.{
  ℕ, ◌+◌, ◌-◌, ◌*◌, ◌%◌, ◌≡◌, refl, Bool, true, false, List, [], ◌∷◌, ◌++◌, map, Option, none, some,
  length, set, take, drop, replicate, arith, ltb, ◌==◌, if◌then◌else◌,
}
use osjitter.Prelude.Words.{u32, u64, u32_mod, u64_mod, sub64}
use osjitter.Util.Sort.{cmp_u32, qsort}

-- `struct Worker`, without the thread's handle
pub record Worker : Type 0 where
  pub tid : ℕ
  pub cpu_id : ℕ
  pub deltas : List ℕ
  pub samples : ℕ
  pub thresh_cnt : ℕ
  pub tsc_start : ℕ
  pub tsc_overflow : ℕ
  pub tsc_total_int : ℕ
  pub tsc_delta_min : ℕ
  pub invol_switch : ℕ

-- what the measurement takes from `global_args`
pub record Limits : Type 0 where
  pub samples : ℕ
  pub tsc_thresh : ℕ
  pub tsc_runtime : ℕ

-- the local variables of the measuring loop
pub record Loop : Type 0 where
  pub i : ℕ
  pub ds : List ℕ
  pub total : ℕ
  pub overflow : ℕ
  pub delta_min : ℕ
  pub tsc : ℕ

abbrev pub uint32_max : ℕ
uint32_max = 0xffff_ffff

abbrev pub uint64_max : ℕ
uint64_max = 0xffff_ffff_ffff_ffff

abbrev pub saturate : ℕ → ℕ
saturate delta = if ltb uint32_max delta then uint32_max else delta

-- the branch for `delta > tsc_thresh`
unfoldable pub interrupted : ℕ → ℕ → ℕ → Loop → Loop
interrupted n t delta s = record s {
  total = u64 (s.total + delta);
  ds = if ltb s.i n then set s.ds s.i (saturate delta) else s.ds;
  overflow = if ltb s.i n then s.overflow else if s.overflow == 0 then t else s.overflow;
  i = u64 (s.i + 1);
}

-- a round at the reading `t`, once `delta` is computed
unfoldable pub round : ℕ → ℕ → ℕ → ℕ → Loop → Loop
unfolding interrupted
round n thresh t delta s =
    let s' = (if ltb thresh delta then interrupted n t delta s else s) in
    record s' { tsc = t; delta_min = if ltb delta s.delta_min then delta else s.delta_min }

-- The round that is unrolled: `delta` is a `uint64_t`.
unfoldable pub first_round : ℕ → ℕ → ℕ → Loop → Loop
unfolding round
first_round n thresh t s = round n thresh t (sub64 t s.tsc) s

-- A round of the loop: `delta` is a `uint32_t`.
unfoldable pub loop_round : ℕ → ℕ → ℕ → Loop → Loop
unfolding round
loop_round n thresh t s = round n thresh t (u32 (sub64 t s.tsc)) s

-- `while (tsc < limit)`; `none` means that the readings end before the loop does.
unfoldable pub measure_loop : ℕ → ℕ → ℕ → List ℕ → Loop → Option Loop
measure_loop n thresh limit [] s = if ltb s.tsc limit then none else some s
measure_loop n thresh limit (t ∷ ts) s =
    let rest = measure_loop n thresh limit ts (loop_round n thresh t s) in
    if ltb s.tsc limit then rest else some s

-- From the first reading to the end of the loop.
unfoldable pub measure : Limits → ℕ → List ℕ → Option Loop
measure a start ts =
    let limit = u64 (start + a.tsc_runtime) in
    let s : Loop = record {
      i = 0;
      ds = replicate a.samples 0;
      total = 0;
      overflow = 0;
      delta_min = uint64_max;
      tsc = start;
    } in
    if ltb start limit
    then (elim ts [
      | [] ↦ none
      | t ∷ rest ↦
          measure_loop a.samples a.tsc_thresh limit rest
            (record (first_round a.samples a.tsc_thresh t s) { delta_min = uint64_max })
    ])
    else measure_loop a.samples a.tsc_thresh limit ts s

-- `w->deltas[i] -= w->tsc_delta_min`, a `uint32_t` less a `uint64_t`
abbrev pub less_min : ℕ → ℕ → ℕ
less_min m d = u32 (sub64 d m)

-- What the thread leaves in its `Worker`.
unfoldable pub publish : ℕ → ℕ → Loop → Worker → Worker
publish n start s w =
    let samples = (if ltb s.i n then s.i else n) in
    record w {
      deltas = qsort cmp_u32 (map (less_min s.delta_min) (take samples s.ds)) ++ drop samples s.ds;
      samples = samples;
      thresh_cnt = s.i;
      tsc_start = start;
      tsc_overflow = s.overflow;
      tsc_total_int = sub64 s.total (u64 (s.delta_min * s.i));
      tsc_delta_min = s.delta_min;
    }

-- Rounds of 30, 30, 500, 40 and 2 ^ 32 + 30 ticks, with room for two interruptions.
abbrev pub readings : List ℕ
readings = 1030 ∷ 1060 ∷ 1560 ∷ 1600 ∷ 4294968926 ∷ []

pub data Outcome : Type 0 where
  -- `calloc` fails, and the thread returns NULL
  no_memory : Outcome
  -- more readings are needed
  running : Outcome
  finished : Worker → Outcome

unfoldable pub worker_main : Bool → Limits → ℕ → List ℕ → Worker → Outcome
worker_main false a start ts w = no_memory
worker_main true a start ts w = elim (measure a start ts) [
  | none ↦ running
  | some s ↦ finished (publish a.samples start s w)
]

abbrev pub idle : Worker
idle = record {
  tid = 7;
  cpu_id = 0;
  deltas = [];
  samples = 0;
  thresh_cnt = 0;
  tsc_start = 0;
  tsc_overflow = 0;
  tsc_total_int = 0;
  tsc_delta_min = 0;
  invol_switch = 0;
}

worker_main_runs :
    worker_main true
      (record { samples = 2; tsc_thresh = 100; tsc_runtime = 600 })
      1000
      readings
      idle
    ≡ finished (record idle {
      deltas = 470 ∷ 0 ∷ [];
      samples = 1;
      thresh_cnt = 1;
      tsc_start = 1000;
      tsc_total_int = 470;
      tsc_delta_min = 30;
    })
unfolding worker_main measure measure_loop first_round loop_round publish qsort cmp_u32
worker_main_runs = refl
