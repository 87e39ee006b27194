-- ===== src/Util/Scale/Range.antt =====
-- The guarantee that the comment on `clocks_calc_mult_shift` in util.c gives: no 64-bit overflow
-- within the conversion range.
use osjitter.Prelude.{ℕ, ◌+◌, ◌-◌, ◌*◌, ◌/◌, ◌^◌, ◌≤◌, ◌<◌, ◌≡◌, ap, sym, ◌∙◌, Option, some, arith}
use mathlib.Core.Path.{subst}
use osjitter.Prelude.Words.{u32, u64}
use native.Mathlib.Nat.{
  mod-eq_of_lt, mul-le-mul, mul-le-mul_left, mul-lt-mul_of_pos_right, lt-div-mul-add, one-le-pow,
  pow-le-pow_right,
}
use osjitter.Util.Scale.{scaled, shift_loop, clocks_calc_mult_shift}
use osjitter.Util.Scale.Best.{acc_loop_fits, shift_loop_fits, shift_loop_best}

-- The function is total but for a zero frequency: 33 rounds are enough for the first loop.
pub calc_total :
    (from to maxsec : ℕ)
    → 0 < from
    → from < 2 ^ 32
    → maxsec < 2 ^ 32
    → (r : ℕ) × (r ≤ 32)
      × ((maxsec * from / 2 ^ 32 + 1) * 2 ^ r ≤ 2 ^ 32)
      × (clocks_calc_mult_shift from to maxsec
          ≡ some (u32 (shift_loop 32 from to r 0).0, (shift_loop 32 from to r 0).1))
unfolding clocks_calc_mult_shift
calc_total from to maxsec pos small short =
    let m-le : maxsec ≤ 2 ^ 32 - 1 = omega arith in
    let f-le : from ≤ 2 ^ 32 - 1 = omega arith in
    let product = mul-le-mul m-le f-le in
    let exact : u64 (maxsec * from) ≡ maxsec * from = mod-eq_of_lt (omega arith) in
    let (r, found, r-le, bound) =
      acc_loop_fits 32 (u64 (maxsec * from) / 2 ^ 32) 32 (omega arith) (omega arith)
        (omega arith) in
    (r, r-le, subst (λ z. (z / 2 ^ 32 + 1) * 2 ^ r ≤ 2 ^ 32) exact bound, rw found (ground arith))

pub div-eq-zero→lt : (t b : ℕ) → 0 < b → t / b ≡ 0 → t < b
div-eq-zero→lt t b pos h = omega (arith, subst (λ q. t < q * b + b) h (lt-div-mul-add {a = t} pos))

-- What holds when the `for` loop is left by `break`.
pub calc_broke :
    (from to maxsec mult shift : ℕ)
    → 0 < from
    → from < 2 ^ 32
    → maxsec < 2 ^ 32
    → clocks_calc_mult_shift from to maxsec ≡ some (mult, shift)
    → 0 < shift
    → (r : ℕ) × (r ≤ 32)
      × ((maxsec * from / 2 ^ 32 + 1) * 2 ^ r ≤ 2 ^ 32)
      × (mult ≡ scaled from to shift)
      × (mult < 2 ^ r)
      × (shift ≤ 32)
      × ((k : ℕ) → 0 < k → k ≤ 32 → scaled from to k / 2 ^ r ≡ 0 → k ≤ shift)
calc_broke from to maxsec mult shift pos small short e broke =
    let (r, r-le, bound, found) = calc_total from to maxsec pos small short in
    let loop = shift_loop 32 from to r 0 in
    let same : ◌≡◌ {A = Option (ℕ × ℕ)} (some (u32 loop.0, loop.1)) (some (mult, shift)) =
      sym found ∙ e in
    let mult-eq : u32 loop.0 ≡ mult = cc in
    let shift-eq : loop.1 ≡ shift = cc in
    let fits = shift_loop_fits from to r 32 0 (omega arith) in
    let room : loop.0 < 2 ^ r =
      div-eq-zero→lt loop.0 (2 ^ r) (one-le-pow r 2 (omega arith)) fits.1 in
    let r32 : 2 ^ r ≤ 2 ^ 32 = pow-le-pow_right (omega arith) r-le in
    let exact : u32 loop.0 ≡ loop.0 = mod-eq_of_lt (omega arith) in
    let value : mult ≡ scaled from to shift =
      sym mult-eq ∙ exact ∙ fits.0 ∙ ap (scaled from to) shift-eq in
    (
      r,
      r-le,
      bound,
      value,
      omega arith,
      omega arith,
      λ k p q h. omega (arith, shift_loop_best from to r 32 0 k p q h),
    )

-- A count that `maxsec` seconds hold, times the multiplier, is below 2 ^ 64.
pub mult_no_overflow :
    (from to maxsec cyc mult shift : ℕ)
    → 0 < from
    → from < 2 ^ 32
    → maxsec < 2 ^ 32
    → clocks_calc_mult_shift from to maxsec ≡ some (mult, shift)
    → 0 < shift
    → cyc ≤ maxsec * from
    → cyc * mult < 2 ^ 64
mult_no_overflow from to maxsec cyc mult shift pos small short e broke within =
    let (r, r-le, bound, value, room, s-le, best) =
      calc_broke from to maxsec mult shift pos small short e broke in
    let m = maxsec * from in
    let mult-le : mult ≤ 2 ^ r = omega arith in
    let product = mul-le-mul within mult-le in
    let above : m < (m / 2 ^ 32 + 1) * 2 ^ 32 = omega arith in
    let scaled_up = mul-lt-mul_of_pos_right above (one-le-pow r 2 (omega arith)) in
    let scaled_bound = mul-le-mul_left (2 ^ 32) bound in omega arith
