-- ===== src/Jitter/Measure/Account.antt =====
-- The loop of `worker_main` in osjitter.c, from the first reading to the last: it ends, and its
-- variables account for every reading that it took.
use Prim.Native.Nat.{zero, suc, min}
use mathlib.Core.List.{append-nil, append_assoc}
use mathlib.Core.Path.{subst}
use osjitter.Prelude.{
  ℕ, ◌+◌, ◌^◌, ◌≤◌, ◌<◌, ◌≡◌, refl, sym, ap, ◌∙◌, false, List, [], ◌∷◌, ◌++◌, some, All, All-append,
  length, length-append, get_or, arith, ltb, Bool-cases, inl, inr, of_some,
}
use osjitter.Prelude.Words.{u32, sub64}
use osjitter.Jitter.Measure.{Loop, round, loop_round, measure_loop}
use osjitter.Jitter.Measure.Log.{
  Event, interruptions, IsLate, Accounts, smallest, gaps, consumed, round-Accounts, round-delta_min,
  round-tsc,
}

pub interruptions-IsLate :
    (thresh : ℕ) (es : List Event) → All IsLate es → All IsLate (interruptions thresh es)
interruptions-IsLate thresh [] h = tt
interruptions-IsLate thresh (e ∷ es) h = ground (arith, interruptions-IsLate thresh es h.1)

pub interruptions-append :
    (thresh : ℕ) (es fs : List Event)
    → interruptions thresh (es ++ fs) ≡ interruptions thresh es ++ interruptions thresh fs
interruptions-append thresh [] fs = refl
interruptions-append thresh (e ∷ es) fs = ground (arith, interruptions-append thresh es fs)

pub length-interruptions-le :
    (thresh : ℕ) (es : List Event) → length (interruptions thresh es) ≤ length es
length-interruptions-le thresh [] = omega arith
length-interruptions-le thresh (e ∷ es) = ground (arith, length-interruptions-le thresh es)

-- From `s`, with `log` counted, the loop has taken the events `es` and ended in `s'`.
pub record Measured (n thresh limit : ℕ) (log : List Event) (s : Loop) (es : List Event) (s' : Loop)
    : Type 0 where
  pub account : Accounts n (log ++ interruptions thresh es) s'
  pub minimum : s'.delta_min ≡ smallest s.delta_min es
  pub expired : limit ≤ s'.tsc

Measured-done :
    {n thresh limit : ℕ} {log : List Event} {s s' : Loop}
    → Accounts n log s
    → limit ≤ s.tsc
    → s ≡ s'
    → Measured n thresh limit log s [] s'
Measured-done {n} {thresh} {limit} {log} {s} acc le e =
    subst (Measured n thresh limit log s []) e
      (record { account = rw append-nil acc; minimum = refl; expired = le })

Measured-more :
    {n thresh limit : ℕ} {log : List Event} {s s1 s' : Loop} {es : List Event} (e : Event)
    → s1.delta_min ≡ min s.delta_min e.delta
    → Measured n thresh limit (log ++ interruptions thresh (e ∷ [])) s1 es s'
    → Measured n thresh limit log s (e ∷ es) s'
Measured-more {n} {thresh} {log} {s' = s'} {es} e m rest = record {
  account =
      subst (λ l. Accounts n l s')
        (append_assoc log (interruptions thresh (e ∷ [])) (interruptions thresh es)
          ∙ ap (λ l. log ++ l) (sym (interruptions-append thresh (e ∷ []) es)))
        rest.account;
  minimum = rest.minimum ∙ ap (λ k. smallest k es) m;
  expired = rest.expired;
}

-- The loop accounts for the readings that it takes, and ends at a reading not below the limit.
pub measure_loop-Measured :
    (n thresh limit : ℕ) (ts : List ℕ) (s s' : Loop) (log : List Event)
    → Accounts n log s
    → All IsLate log
    → All (λ t. 0 < t) ts
    → length log + length ts < 2 ^ 64
    → measure_loop n thresh limit ts s ≡ some s'
    → Measured n thresh limit log s (gaps s.tsc (consumed limit s.tsc ts)) s'
unfolding measure_loop loop_round
measure_loop-Measured n thresh limit [] s s' log acc late pos room h =
    elim (Bool-cases (ltb s.tsc limit)) [
      | inl more ↦ cc (rw more at h)
      | inr done ↦ Measured-done acc (ground arith) (of_some (rw done at h))
    ]
measure_loop-Measured n thresh limit (t ∷ ts) s s' log acc late pos room h =
    elim (Bool-cases (ltb s.tsc limit)) [
      | inl more ↦
          let e : Event = record { at = t; delta = u32 (sub64 t s.tsc) } in
          let s1 = round n thresh t e.delta s in
          let found = interruptions thresh (e ∷ []) in
          let short = length-interruptions-le thresh (e ∷ []) in
          let ih =
            measure_loop-Measured n thresh limit ts s1 s' (log ++ found)
              (round-Accounts acc late (omega arith) thresh e)
              (All-append IsLate log found late (interruptions-IsLate thresh (e ∷ []) (pos.0, tt)))
              pos.1 (omega (arith, length-append {0} log found)) (rw more at h) in
          rw more (
            Measured-more e (round-delta_min n thresh t e.delta s) (
              subst
                (λ (x : ℕ).
                  Measured n thresh limit (log ++ found) s1 (gaps x (consumed limit x ts)) s')
                (round-tsc n thresh t e.delta s) ih))
      | inr done ↦ rw done (Measured-done acc (ground arith) (of_some (rw done at h)))
    ]

-- A reading not below the limit is the one just taken, or comes later.
measure_loop_later :
    (n thresh limit t : ℕ) (ts : List ℕ) (s : Loop) (k : ℕ)
    → s.tsc ≡ t
    → k < length (t ∷ ts)
    → limit ≤ get_or (t ∷ ts) k 0
    → ((j : ℕ)
        → j < length ts
        → limit ≤ get_or ts j 0
        → (s' : Loop) × (measure_loop n thresh limit ts s ≡ some s'))
    → (s' : Loop) × (measure_loop n thresh limit ts s ≡ some s')
unfolding measure_loop
measure_loop_later n thresh limit t [] s zero e lt le ih =
    let done : ltb s.tsc limit ≡ false = ground arith in (s, rw done)
measure_loop_later n thresh limit t (u ∷ ts) s zero e lt le ih =
    let done : ltb s.tsc limit ≡ false = ground arith in (s, rw done)
measure_loop_later n thresh limit t [] s (suc k) e lt le ih = absurd (omega arith)
measure_loop_later n thresh limit t (u ∷ ts) s (suc k) e lt le ih = ih k (omega arith) le

-- The loop ends once a reading is not below the limit.
pub measure_loop_ends :
    (n thresh limit : ℕ) (ts : List ℕ) (s : Loop) (k : ℕ)
    → k < length ts
    → limit ≤ get_or ts k 0
    → (s' : Loop) × (measure_loop n thresh limit ts s ≡ some s')
unfolding measure_loop loop_round
measure_loop_ends n thresh limit [] s k lt le = absurd (omega arith)
measure_loop_ends n thresh limit (t ∷ ts) s k lt le = elim (Bool-cases (ltb s.tsc limit)) [
  | inr done ↦ (s, rw done)
  | inl more ↦ rw more (
      measure_loop_later n thresh limit t ts _ k (round-tsc n thresh t (u32 (sub64 t s.tsc)) s) lt
        le (measure_loop_ends n thresh limit ts (round n thresh t (u32 (sub64 t s.tsc)) s)))
]
