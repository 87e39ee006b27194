-- ===== src/Jitter/Args/Laws.antt =====
-- What `parse_args` of osjitter.c makes of its arguments.
use osjitter.Prelude.{
  ℕ, ◌+◌, ◌-◌, ◌*◌, ◌%◌, ◌^◌, ◌≤◌, ◌<◌, ◌≡◌, ◌≢◌, refl, ap, sym, ◌∙◌, false, ◌&&◌, ◌||◌, List, [],
  ◌∷◌, ◌++◌, some, All, ◌⊎◌, inl, inr, arith, leb, ◌==◌,
}
use mathlib.Core.Path.{subst}
use osjitter.Util.Atoi.{atoi, IsDigit, decimal, atoi-decimal}
use osjitter.Jitter.CpuSet.{CpuSet, cpu_set_range, cpu_set_range-between}
use osjitter.Jitter.Args.{
  Args, no_args, Flag, cpu, help, flag_of, split_dash, parse_cpus, set_arg, Parsed, refused, helped,
  accepted, last_arg, parse_loop, set_defaults, parse_args,
}

Parsed-cases : (r : Parsed) → (r ≡ refused) ⊎ (r ≡ helped) ⊎ ((c : Args) × (r ≡ accepted c))
Parsed-cases refused = inl refl
Parsed-cases helped = inr (inl refl)
Parsed-cases (accepted c) = inr (inr (c, refl))

-- A run of the loop that is accepted went through its first option.
parse_loop-eq-accepted :
    (s v : List ℕ) (rest : List (List ℕ)) (a b : Args)
    → parse_loop (s ∷ v ∷ rest) a ≡ accepted b
    → (c : Args) × (set_arg (flag_of s) v a ≡ accepted c) × (parse_loop rest c ≡ accepted b)
unfolding parse_loop
parse_loop-eq-accepted s v rest a b h = elim (Parsed-cases (set_arg (flag_of s) v a)) [
  | inl bad ↦ cc (rw (bad, parse_loop) at h)
  | inr (inl shown) ↦ cc (rw (shown, parse_loop) at h)
  | inr (inr (c, e)) ↦ (c, e, rw (e, parse_loop) at h)
]

parse_loop-nil : (a b : Args) → parse_loop [] a ≡ accepted b → a ≡ b
unfolding parse_loop
parse_loop-nil a b h = cc

last_arg-ne-accepted : (f : Flag) (b : Args) → last_arg f ≢ accepted b
unfolding last_arg
last_arg-ne-accepted help b h = cc
last_arg-ne-accepted _ b h = cc

parse_loop-last : (s : List ℕ) (a : Args) → parse_loop (s ∷ []) a ≡ last_arg (flag_of s)
unfolding parse_loop
parse_loop-last s a = refl

parse_loop-accepted :
    (s v : List ℕ) (rest : List (List ℕ)) (a c : Args)
    → set_arg (flag_of s) v a ≡ accepted c
    → parse_loop (s ∷ v ∷ rest) a ≡ parse_loop rest c
unfolding parse_loop
parse_loop-accepted s v rest a c e = rw (e, parse_loop)

-- The options are read one after the other: what was accepted is the start for those behind it.
pub parse_loop-append :
    (xs ys : List (List ℕ)) (a b : Args)
    → parse_loop xs a ≡ accepted b
    → parse_loop (xs ++ ys) a ≡ parse_loop ys b
parse_loop-append [] ys a b h = ap (parse_loop ys) (parse_loop-nil a b h)
parse_loop-append (s ∷ []) ys a b h =
    absurd (last_arg-ne-accepted (flag_of s) b (sym (parse_loop-last s a) ∙ h))
parse_loop-append (s ∷ v ∷ rest) ys a b h =
    let (c, e, h') = parse_loop-eq-accepted s v rest a b h in
    parse_loop-accepted s v (rest ++ ys) a c e ∙ parse_loop-append rest ys c b h'

set_arg-samples :
    (f : Flag) (v : List ℕ) (a b : Args) → set_arg f v a ≡ accepted b → b.samples ≡ a.samples
unfolding set_arg
set_arg-samples cpu v a b h = ground arith
set_arg-samples _ v a b h = ground arith

parse_loop-samples :
    (argv : List (List ℕ)) (a b : Args) → parse_loop argv a ≡ accepted b → b.samples ≡ a.samples
parse_loop-samples [] a b h = ap (λ (x : Args). x.samples) (sym (parse_loop-nil a b h))
parse_loop-samples (s ∷ []) a b h =
    absurd (last_arg-ne-accepted (flag_of s) b (sym (parse_loop-last s a) ∙ h))
parse_loop-samples (s ∷ v ∷ rest) a b h =
    let (c, e, h') = parse_loop-eq-accepted s v rest a b h in
    parse_loop-samples rest c b h' ∙ set_arg-samples (flag_of s) v a c e

abbrev pub IsReady : Args → Type 0
IsReady a = (0 < a.runtime_s) × (0 < a.thresh_ns) × (a.samples ≡ a.runtime_s * 105000 % 2 ^ 32)

set_defaults-IsReady : (b : Args) → b.samples ≡ 0 → IsReady (set_defaults b)
unfolding set_defaults
set_defaults-IsReady b h = ground arith

parse_args-accepted :
    (argv : List (List ℕ)) (a : Args)
    → parse_args argv ≡ accepted a
    → (b : Args) × (parse_loop argv no_args ≡ accepted b) × (set_defaults b ≡ a)
unfolding parse_args
parse_args-accepted argv a h = elim (Parsed-cases (parse_loop argv no_args)) [
  | inl bad ↦ cc (rw (bad, parse_args) at h)
  | inr (inl shown) ↦ cc (rw (shown, parse_args) at h)
  | inr (inr (b, e)) ↦ (b, e, cc (rw (e, parse_args) at h))
]

-- Accepted arguments have a measuring time and a threshold that are not 0, and the number of
-- samples is the product of the time and 105000 in 32 bits.
pub parse_args-IsReady :
    (argv : List (List ℕ)) (a : Args) → parse_args argv ≡ accepted a → IsReady a
parse_args-IsReady argv a h =
    let (b, e, same) = parse_args-accepted argv a h in
    subst IsReady same (set_defaults-IsReady b (parse_loop-samples argv no_args b e))

-- From 40905 seconds on the product wraps: there are fewer samples than the time asks for.
pub samples_wrap :
    (argv : List (List ℕ)) (a : Args)
    → parse_args argv ≡ accepted a
    → 40905 ≤ a.runtime_s
    → a.samples < a.runtime_s * 105000
samples_wrap argv a h long = let ready = parse_args-IsReady argv a h in omega arith

split_dash-digits : (xs ys : List ℕ) → All IsDigit xs → split_dash (xs ++ b'-' ∷ ys) ≡ some (xs, ys)
unfolding split_dash
split_dash-digits [] ys h = refl
split_dash-digits (x ∷ xs) ys h =
    let other : (x == b'-') ≡ false = ground arith in
    rw (other, split_dash-digits xs ys h.1, split_dash)

-- `--cpu b-e` with numbers below 1024 adds the CPUs from `b` to `e`, and no other.
pub parse_cpus-range :
    (b : ℕ) (bs : List ℕ) (e : ℕ) (es : List ℕ) (s : CpuSet)
    → All IsDigit (b ∷ bs)
    → All IsDigit (e ∷ es)
    → decimal 0 (b ∷ bs) < 1024
    → decimal 0 (e ∷ es) < 1024
    → (s' : CpuSet) × (parse_cpus (b ∷ bs ++ b'-' ∷ e ∷ es) s ≡ some s')
      × ((k : ℕ) → s' k ≡ ((leb (decimal 0 (b ∷ bs)) k && leb k (decimal 0 (e ∷ es))) || s k))
unfolding parse_cpus
parse_cpus-range b bs e es s hb he small_b small_e =
    let lo = decimal 0 (b ∷ bs) in
    let hi = decimal 0 (e ∷ es) in
    let lo-eq : atoi (b ∷ bs) ≡ lo = atoi-decimal b bs hb (omega arith) in
    let hi-eq : atoi (e ∷ es) ≡ hi = atoi-decimal e es he (omega arith) in
    let fits : (leb 1024 lo || leb 1024 hi) ≡ false = ground arith in
    (
      cpu_set_range (hi + 1 - lo) lo s,
      rw (split_dash-digits (b ∷ bs) (e ∷ es) hb, lo-eq, hi-eq, fits, parse_cpus),
      λ k. cpu_set_range-between lo hi s k small_b small_e,
    )
