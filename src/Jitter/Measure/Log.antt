-- ===== src/Jitter/Measure/Log.antt =====
-- What the loop variables of `worker_main` in osjitter.c hold: the account of the interruptions seen.
use Prim.Native.Nat.{zero, suc, min}
use osjitter.Prelude.{
  ℕ, ◌+◌, ◌^◌, ◌≤◌, ◌<◌, ◌≡◌, refl, sym, ap, ◌∙◌, List, [], ◌∷◌, ◌++◌, map, All, length,
  length-append, length-set, set, take, take-set, take-all, take-append_short, sum, arith, ltb,
  ◌==◌, if◌then◌else◌, Bool-cases, inl, inr,
}
use mathlib.Core.List.{map-append, append-nil}
use native.Mathlib.Numerals.{add-one}
use osjitter.Prelude.Words.{u32, u64, sub64}
use osjitter.Jitter.Measure.{Loop, saturate, interrupted, round}

-- A reading, with the ticks since the one before.
pub record Event : Type 0 where
  pub at : ℕ
  pub delta : ℕ

-- the events above the threshold
abbrev pub interruptions : ℕ → List Event → List Event
interruptions thresh [] = []
interruptions thresh (e ∷ es) =
    if ltb thresh e.delta then e ∷ interruptions thresh es else interruptions thresh es

-- the deltas as they are recorded
abbrev pub recorded : List Event → List ℕ
recorded es = map (λ e. saturate e.delta) es

abbrev pub total_of : List Event → ℕ
total_of es = sum (map (λ e. e.delta) es)

-- The reading of the first interruption that found the buffer full, or 0.
abbrev pub overflow_of : ℕ → List Event → ℕ
overflow_of n [] = 0
overflow_of zero (e ∷ es) = e.at
overflow_of (suc n) (e ∷ es) = overflow_of n es

abbrev pub smallest : ℕ → List Event → ℕ
smallest m [] = m
smallest m (e ∷ es) = smallest (min m e.delta) es

-- `log` is what has been counted so far.
pub record Accounts (n : ℕ) (log : List Event) (s : Loop) : Type 0 where
  pub counted : s.i ≡ length log
  pub sized : length s.ds ≡ n
  pub stored : take (length log) s.ds ≡ take n (recorded log)
  pub summed : s.total ≡ u64 (total_of log)
  pub overflowed : s.overflow ≡ overflow_of n log

total_of-append : (es : List Event) (e : Event) → total_of (es ++ e ∷ []) ≡ total_of es + e.delta
total_of-append [] e = omega arith
total_of-append (x ∷ es) e = omega (arith, total_of-append es e)

overflow_of-append_short :
    (n : ℕ) (es : List Event) (e : Event)
    → length es < n
    → overflow_of n (es ++ e ∷ []) ≡ overflow_of n es
overflow_of-append_short zero es e h = absurd (omega arith)
overflow_of-append_short (suc n) [] e h = refl
overflow_of-append_short (suc n) (x ∷ es) e h = overflow_of-append_short n es e (omega arith)

overflow_of_short : (n : ℕ) (es : List Event) → length es ≤ n → overflow_of n es ≡ 0
overflow_of_short n [] h = refl
overflow_of_short zero (x ∷ es) h = absurd (omega arith)
overflow_of_short (suc n) (x ∷ es) h = overflow_of_short n es (omega arith)

abbrev pub IsLate : Event → Type 0
IsLate e = 0 < e.at

-- An event behind a full buffer is noted only if it is the first one.
overflow_of-append_full :
    (n : ℕ) (es : List Event) (e : Event)
    → All IsLate es
    → n ≤ length es
    → (if overflow_of n es == 0 then e.at else overflow_of n es) ≡ overflow_of n (es ++ e ∷ [])
overflow_of-append_full zero [] e late h = refl
overflow_of-append_full zero (x ∷ es) e late h = ground arith
overflow_of-append_full (suc n) [] e late h = absurd (omega arith)
overflow_of-append_full (suc n) (x ∷ es) e late h =
    overflow_of-append_full n es e late.1 (omega arith)

recorded-append :
    (es : List Event) (e : Event) → recorded (es ++ e ∷ []) ≡ recorded es ++ saturate e.delta ∷ []
recorded-append es e = map-append (λ (x : Event). saturate x.delta) es (e ∷ [])

pub length-recorded : (es : List Event) → length (recorded es) ≡ length es
length-recorded [] = refl
length-recorded (e ∷ es) = ap suc (length-recorded es)

-- The write to the buffer, which is skipped when the buffer is full.
stored_step :
    (n : ℕ) (log : List Event) (e : Event) (ds : List ℕ)
    → length ds ≡ n
    → take (length log) ds ≡ take n (recorded log)
    → take
        (suc (length log))
        (if ltb (length log) n then set ds (length log) (saturate e.delta) else ds)
      ≡ take n (recorded (log ++ e ∷ []))
stored_step n log e ds sized stored = elim (Bool-cases (ltb (length log) n)) [
  | inl room ↦
      let lt : length log < n = ground arith in
      rw room (
        take-set ds (length log) (saturate e.delta) (omega arith)
        ∙ ap (λ xs. xs ++ saturate e.delta ∷ []) stored
        ∙ ap (λ xs. xs ++ saturate e.delta ∷ [])
            (take-all n (recorded log) (omega (arith, length-recorded log)))
        ∙ sym (
            take-all n (recorded log ++ saturate e.delta ∷ []) (
              omega (
                arith,
                length-append {0} (recorded log) (saturate e.delta ∷ []),
                length-recorded log,
              )))
        ∙ ap (take n) (sym (recorded-append log e)))
  | inr full ↦
      let le : n ≤ length log = ground arith in
      rw full (
        take-all (suc (length log)) ds (omega arith)
        ∙ sym (take-all (length log) ds (omega arith))
        ∙ stored
        ∙ sym (
            take-append_short n (recorded log) (saturate e.delta ∷ [])
              (omega (arith, length-recorded log)))
        ∙ ap (take n) (sym (recorded-append log e)))
]

module _ {n : ℕ} {log : List Event} {s : Loop} (acc : Accounts n log s) (late : All IsLate log)
    (room : length log + 1 < 2 ^ 64) (e : Event) where
  -- Counting an interruption adds it to the account.
  pub interrupted-Accounts : Accounts n (log ++ e ∷ []) (interrupted n e.at e.delta s)
  unfolding interrupted
  interrupted-Accounts =
      let longer : length (log ++ e ∷ []) ≡ length log + 1 = length-append log (e ∷ []) in
      record {
        counted = omega (arith, acc.counted);
        sized =
            rw acc.counted
              (ground (arith, acc.sized, length-set s.ds (length log) (saturate e.delta)));
        stored = rw (acc.counted, longer, add-one) (stored_step n log e s.ds acc.sized acc.stored);
        summed = omega (arith, acc.summed, total_of-append log e);
        overflowed = elim (Bool-cases (ltb s.i n)) [
          | inl below ↦ rw below (
              acc.overflowed ∙ sym (overflow_of-append_short n log e (ground (arith, acc.counted))))
          | inr full ↦
              rw (full, acc.overflowed)
                (overflow_of-append_full n log e late (ground (arith, acc.counted)))
        ];
      }

-- The events that a sequence of readings makes, by `uint32_t` differences.
abbrev pub gaps : ℕ → List ℕ → List Event
gaps tsc [] = []
gaps tsc (t ∷ ts) = (record { at = t; delta = u32 (sub64 t tsc) }) ∷ gaps t ts

-- the readings that the loop takes
abbrev pub consumed : ℕ → ℕ → List ℕ → List ℕ
consumed limit tsc [] = []
consumed limit tsc (t ∷ ts) = if ltb tsc limit then t ∷ consumed limit t ts else []

pub Accounts-cong :
    {n : ℕ} {log : List Event} {s : Loop} (m t : ℕ)
    → Accounts n log s
    → Accounts n log (record s { delta_min = m; tsc = t })
Accounts-cong m t acc = record {
  counted = acc.counted;
  sized = acc.sized;
  stored = acc.stored;
  summed = acc.summed;
  overflowed = acc.overflowed;
}

-- A round of the loop adds its event to the account if it is an interruption.
pub round-Accounts :
    {n : ℕ} {log : List Event} {s : Loop}
    → Accounts n log s
    → All IsLate log
    → length log + 1 < 2 ^ 64
    → (thresh : ℕ) (e : Event)
    → Accounts n (log ++ interruptions thresh (e ∷ [])) (round n thresh e.at e.delta s)
unfolding round
round-Accounts {n} {log} {s} acc late room thresh e = elim (Bool-cases (ltb thresh e.delta)) [
  | inl above ↦ rw above (Accounts-cong _ _ (interrupted-Accounts acc late room e))
  | inr below ↦ rw (below, append-nil) (Accounts-cong _ _ acc)
]

pub round-delta_min :
    (n thresh t delta : ℕ) (s : Loop) → (round n thresh t delta s).delta_min ≡ min s.delta_min delta
unfolding round
round-delta_min n thresh t delta s = ground arith

pub round-tsc : (n thresh t delta : ℕ) (s : Loop) → (round n thresh t delta s).tsc ≡ t
unfolding round
round-tsc n thresh t delta s = refl
