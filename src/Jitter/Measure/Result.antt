-- ===== src/Jitter/Measure/Result.antt =====
-- What `worker_main` of osjitter.c leaves in its `Worker`, against the readings that it took.
use Prim.Native.Nat.{zero, suc, min}
use mathlib.Core.Path.{subst}
use osjitter.Prelude.{
  ℕ, ◌+◌, ◌*◌, ◌^◌, ◌≤◌, ◌<◌, ◌≡◌, refl, sym, ap, ◌∙◌, true, List, [], ◌∷◌, map, some, All, length,
  get_or, take, take-all, take-append_exact, length-take, length-map, drop, replicate,
  length-replicate, arith, ltb, if◌then◌else◌, Bool-cases, inl, inr, lt→ltb,
}
use osjitter.Prelude.Words.{u64, sub64}
use osjitter.Util.Sort.{cmp_u32, qsort, length-qsort}
use osjitter.Jitter.Measure.{
  Worker, Limits, Loop, uint64_max, less_min, first_round, measure_loop, measure, publish, finished,
  worker_main,
}
use osjitter.Jitter.Measure.Log.{
  Event, interruptions, recorded, total_of, overflow_of, Accounts, smallest, gaps, consumed,
  Accounts-cong, round-Accounts,
}
use osjitter.Jitter.Measure.Account.{
  Measured, measure_loop-Measured, measure_loop_ends, interruptions-IsLate, length-interruptions-le,
  interruptions-append,
}

abbrev pub limit_of : Limits → ℕ → ℕ
limit_of a start = u64 (start + a.tsc_runtime)

-- the event of the round that is unrolled, with a 64-bit difference
abbrev pub first_event : ℕ → ℕ → Event
first_event start t = record { at = t; delta = sub64 t start }

-- the events of the loop
abbrev pub loop_events : Limits → ℕ → ℕ → List ℕ → List Event
loop_events a start t ts = gaps t (consumed (limit_of a start) t ts)

-- the interruptions of the whole measurement
abbrev pub log_of : Limits → ℕ → ℕ → List ℕ → List Event
log_of a start t ts = interruptions a.tsc_thresh (first_event start t ∷ loop_events a start t ts)

-- What the worker reports, in terms of the interruptions `log` and the smallest round `m`.
pub record Reports (n start m : ℕ) (log : List Event) (w : Worker) : Type 0 where
  pub counted : w.thresh_cnt ≡ length log
  pub kept : w.samples ≡ min (length log) n
  pub started : w.tsc_start ≡ start
  pub overflowed : w.tsc_overflow ≡ overflow_of n log
  pub smallest_round : w.tsc_delta_min ≡ m
  pub summed : w.tsc_total_int ≡ sub64 (u64 (total_of log)) (u64 (m * length log))
  pub sorted : take w.samples w.deltas ≡ qsort cmp_u32 (map (less_min m) (take n (recorded log)))

init-Accounts :
    (n start m : ℕ)
    → Accounts n []
        (record { i = 0; ds = replicate n 0; total = 0; overflow = 0; delta_min = m; tsc = start })
init-Accounts zero start m = record {
  counted = refl;
  sized = refl;
  stored = refl;
  summed = refl;
  overflowed = refl;
}
init-Accounts (suc n) start m = record {
  counted = refl;
  sized = length-replicate (suc n) 0;
  stored = refl;
  summed = refl;
  overflowed = refl;
}

-- the state behind the round that is unrolled, with its `tsc_delta_min` thrown away
abbrev opened : Limits → ℕ → ℕ → Loop
opened a start t =
    let s : Loop = record {
      i = 0;
      ds = replicate a.samples 0;
      total = 0;
      overflow = 0;
      delta_min = uint64_max;
      tsc = start;
    } in
    record (first_round a.samples a.tsc_thresh t s) { delta_min = uint64_max }

measure-opened :
    (a : Limits) (start t : ℕ) (ts : List ℕ)
    → start < limit_of a start
    → measure a start (t ∷ ts)
      ≡ measure_loop a.samples a.tsc_thresh (limit_of a start) ts (opened a start t)
unfolding measure
measure-opened a start t ts h = rw (lt→ltb start (limit_of a start) h)

opened-Accounts :
    (a : Limits) (start t : ℕ)
    → Accounts a.samples (interruptions a.tsc_thresh (first_event start t ∷ [])) (opened a start t)
unfolding first_round
opened-Accounts a start t = Accounts-cong uint64_max _ (
    round-Accounts (init-Accounts a.samples start uint64_max) tt (omega arith) a.tsc_thresh
      (first_event start t))

opened-tsc : (a : Limits) (start t : ℕ) → (opened a start t).tsc ≡ t
unfolding first_round
opened-tsc a start t = refl

module _ {n : ℕ} {log : List Event} {s : Loop} (acc : Accounts n log s) (start : ℕ)
    (w : Worker) where
  abbrev used : ℕ
  used = if ltb s.i n then s.i else n

  used-min : used ≡ min (length log) n
  used-min = ground (arith, acc.counted)

  take-used : take used s.ds ≡ take n (recorded log)
  take-used = elim (Bool-cases (ltb s.i n)) [
    | inl room ↦ rw (room, acc.counted) acc.stored
    | inr full ↦
        let more : n ≤ length log = ground (arith, acc.counted) in
        rw full (
          take-all n s.ds (omega (arith, acc.sized))
          ∙ sym (take-all (length log) s.ds (omega (arith, acc.sized)))
          ∙ acc.stored)
  ]

  length-used : length (take used s.ds) ≡ used
  length-used = omega (arith, length-take used s.ds, used-min, acc.sized)

  publish-Reports : Reports n start s.delta_min log (publish n start s w)
  unfolding publish
  publish-Reports = record {
    counted = acc.counted;
    kept = used-min;
    started = refl;
    overflowed = acc.overflowed;
    smallest_round = refl;
    summed = rw (acc.summed, acc.counted);
    sorted =
        take-append_exact used (qsort cmp_u32 (map (less_min s.delta_min) (take used s.ds)))
          (drop used s.ds)
          (length-qsort cmp_u32 (map (less_min s.delta_min) (take used s.ds))
            ∙ length-map (take used s.ds) (less_min s.delta_min)
            ∙ length-used)
        ∙ ap (λ xs. qsort cmp_u32 (map (less_min s.delta_min) xs)) take-used;
  }

module _ (a : Limits) (start t : ℕ) (ts : List ℕ) (open_ : start < limit_of a start)
    (late : All (λ x. 0 < x) (t ∷ ts)) (room : length (t ∷ ts) < 2 ^ 64) where
  measure-Measured :
      (s : Loop)
      → measure a start (t ∷ ts) ≡ some s
      → Measured a.samples a.tsc_thresh
          (limit_of a start)
          (interruptions a.tsc_thresh (first_event start t ∷ []))
          (opened a start t)
          (loop_events a start t ts)
          s
  measure-Measured s h =
      let e = first_event start t in
      let found = interruptions a.tsc_thresh (e ∷ []) in
      let short = length-interruptions-le a.tsc_thresh (e ∷ []) in
      subst
        (λ (x : ℕ).
          Measured a.samples a.tsc_thresh (limit_of a start) found (opened a start t)
            (gaps x (consumed (limit_of a start) x ts)) s)
        (opened-tsc a start t)
        (measure_loop-Measured a.samples a.tsc_thresh (limit_of a start) ts (opened a start t) s
          found (opened-Accounts a start t)
          (interruptions-IsLate a.tsc_thresh (e ∷ []) (late.0, tt)) late.1 (omega arith)
          (sym (measure-opened a start t ts open_) ∙ h))

  measure-Accounts :
      (s : Loop) → measure a start (t ∷ ts) ≡ some s → Accounts a.samples (log_of a start t ts) s
  measure-Accounts s h =
      subst (λ l. Accounts a.samples l s)
        (sym
          (interruptions-append a.tsc_thresh (first_event start t ∷ []) (loop_events a start t ts)))
        (measure-Measured s h).account

  -- Once a reading is not below the limit the worker ends, and reports the interruptions among the
  -- rounds that it took, and no other.
  pub worker_main-Reports :
      (k : ℕ) (w : Worker)
      → k < length ts
      → limit_of a start ≤ get_or ts k 0
      → (w' : Worker) × (worker_main true a start (t ∷ ts) w ≡ finished w')
        × Reports a.samples start
            (smallest uint64_max (loop_events a start t ts))
            (log_of a start t ts)
            w'
  unfolding worker_main
  worker_main-Reports k w lt le =
      let (s, ended) =
        measure_loop_ends a.samples a.tsc_thresh (limit_of a start) ts (opened a start t) k lt le in
      let found : measure a start (t ∷ ts) ≡ some s = measure-opened a start t ts open_ ∙ ended in
      (
        publish a.samples start s w,
        rw (found, worker_main),
        subst
            (λ (m : ℕ).
              Reports a.samples start m (log_of a start t ts) (publish a.samples start s w))
            (measure-Measured s found).minimum (publish-Reports (measure-Accounts s found) start w),
      )
