-- ===== src/Util/Scale/Error.antt =====
-- The calls of `clocks_calc_mult_shift` in osjitter.c, pingpong.c and ptp-clock-offset.c: from a
-- frequency in kHz to 10 ^ 6, which gives nanoseconds, with `maxsec` 0.
use osjitter.Prelude.{ℕ, ◌+◌, ◌*◌, ◌/◌, ◌^◌, ◌≤◌, ◌<◌, ◌≡◌, refl, ap, sym, ◌∙◌, some, arith}
use mathlib.Core.Path.{subst}
use osjitter.Prelude.Words.{u32, u64}
use native.Mathlib.Nat.{
  mod-eq_of_lt, mul-le-mul_left, mul-le-mul_right, lt-div-mul-add, div-mul-le_self,
  div-lt_iff_lt-mul, le-div_iff_mul-le, le_trans, one-le-pow, pow-le-pow_right,
}
use osjitter.Util.Scale.{mul_u64_u32_shr, acc_loop, scaled, shift_loop, clocks_calc_mult_shift}
use osjitter.Util.Scale.Best.{shift_loop_fits, shift_loop_best}
use osjitter.Util.Scale.Range.{div-eq-zero→lt}

scaled_exact :
    (khz s : ℕ) → khz < 2 ^ 32 → s ≤ 32 → scaled khz 1000000 s ≡ (1000000 * 2 ^ s + khz / 2) / khz
unfolding scaled
scaled_exact khz s small le =
    let room : 2 ^ s ≤ 2 ^ 32 = pow-le-pow_right (omega arith) le in
    let inner : u64 (1000000 * 2 ^ s) ≡ 1000000 * 2 ^ s = mod-eq_of_lt (omega arith) in
    let outer : u64 (u64 (1000000 * 2 ^ s) + khz / 2) ≡ 1000000 * 2 ^ s + khz / 2 = omega arith in
    ap (λ (x : ℕ). x / khz) outer

pub calc_zero :
    (khz : ℕ)
    → 0 < khz
    → clocks_calc_mult_shift khz 1000000 0
      ≡ some (u32 (shift_loop 32 khz 1000000 32 0).0, (shift_loop 32 khz 1000000 32 0).1)
unfolding clocks_calc_mult_shift
calc_zero khz pos =
    let none_left : u64 (0 * khz) / 2 ^ 32 ≡ 0 = omega arith in
    let loop : acc_loop 33 (u64 (0 * khz) / 2 ^ 32) 32 ≡ some 32 =
      ap (λ t. acc_loop 33 t 32) none_left ∙ unfold acc_loop in refl in
    rw loop (ground arith)

-- For every frequency the multiplier is the rounded quotient, fits 32 bits, and comes with a shift
-- of at least 12.
pub calibration :
    (khz : ℕ)
    → 0 < khz
    → khz < 2 ^ 32
    → (mult : ℕ) × (shift : ℕ) × (clocks_calc_mult_shift khz 1000000 0 ≡ some (mult, shift))
      × (12 ≤ shift)
      × (shift ≤ 32)
      × (mult < 2 ^ 32)
      × (mult ≡ (1000000 * 2 ^ shift + khz / 2) / khz)
calibration khz pos small =
    let loop = shift_loop 32 khz 1000000 32 0 in
    let enough : 1000000 * 2 ^ 12 + khz / 2 < 2 ^ 32 * khz = omega arith in
    let fits12 : scaled khz 1000000 12 / 2 ^ 32 ≡ 0 =
      let quotient = (div-lt_iff_lt-mul pos).1 enough in
      omega (arith, scaled_exact khz 12 small (omega arith)) in
    let at_least = shift_loop_best khz 1000000 32 32 0 12 (omega arith) (omega arith) fits12 in
    let fits = shift_loop_fits khz 1000000 32 32 0 (omega arith) in
    let room : loop.0 < 2 ^ 32 = div-eq-zero→lt loop.0 (2 ^ 32) (omega arith) fits.1 in
    let exact : u32 loop.0 ≡ loop.0 = mod-eq_of_lt room in
    (
      loop.0,
      loop.1,
      calc_zero khz pos ∙ ap (λ (t : ℕ). some (t, loop.1)) exact,
      at_least,
      fits.2,
      room,
      fits.0 ∙ scaled_exact khz loop.1 small fits.2,
    )

-- The nanoseconds of a count of ticks are right up to one nanosecond, but for the rounding of the
-- multiplier, which is at most half a unit in its last place.
pub conversion_error :
    (khz mult shift cyc : ℕ)
    → 0 < khz
    → mult ≡ (1000000 * 2 ^ shift + khz / 2) / khz
    → cyc * mult / 2 ^ shift < 2 ^ 64
    → (khz * mul_u64_u32_shr cyc mult shift * 2 ^ shift ≤ cyc * (1000000 * 2 ^ shift + khz / 2))
      × (cyc * (1000000 * 2 ^ shift)
          ≤ khz * (mul_u64_u32_shr cyc mult shift + 1) * 2 ^ shift + cyc * (khz / 2))
unfolding mul_u64_u32_shr
conversion_error khz mult shift cyc pos e fits =
    let d = 2 ^ shift in
    let n = 1000000 * d in
    let ns = cyc * mult / d in
    let exact : u64 (cyc * mult / d) ≡ ns = mod-eq_of_lt fits in
    let down : mult * khz ≤ n + khz / 2 =
      subst (λ (m : ℕ). m * khz ≤ n + khz / 2) (sym e) (div-mul-le_self (n + khz / 2) khz) in
    let up : n + khz / 2 < mult * khz + khz =
      subst (λ (m : ℕ). n + khz / 2 < m * khz + khz) (sym e)
        (lt-div-mul-add {a = n + khz / 2} pos) in
    let floor : ns * d ≤ cyc * mult = div-mul-le_self (cyc * mult) d in
    let ceil : cyc * mult < ns * d + d =
      lt-div-mul-add {a = cyc * mult} (one-le-pow shift 2 (omega arith)) in
    let low = mul-le-mul_left cyc down in
    let up' : n ≤ mult * khz + khz / 2 = omega arith in
    let high = mul-le-mul_left cyc up' in
    let floor_k = mul-le-mul_left khz floor in
    let ceil' : cyc * mult ≤ ns * d + d = omega arith in
    let ceil_k = mul-le-mul_left khz ceil' in rw exact (omega arith, omega arith)

-- the quotient of a larger count is not smaller
pub quotient-le :
    (cyc cyc' mult shift : ℕ) → cyc ≤ cyc' → cyc * mult / 2 ^ shift ≤ cyc' * mult / 2 ^ shift
quotient-le cyc cyc' mult shift le =
    (le-div_iff_mul-le (one-le-pow shift 2 (omega arith))).1
      (le_trans (div-mul-le_self (cyc * mult) (2 ^ shift)) (mul-le-mul_right mult le))

-- More ticks are not fewer nanoseconds.
pub mul_u64_u32_shr_mono :
    (cyc cyc' mult shift : ℕ)
    → cyc ≤ cyc'
    → cyc' * mult / 2 ^ shift < 2 ^ 64
    → mul_u64_u32_shr cyc mult shift ≤ mul_u64_u32_shr cyc' mult shift
unfolding mul_u64_u32_shr
mul_u64_u32_shr_mono cyc cyc' mult shift le fits =
    let quotient = quotient-le cyc cyc' mult shift le in omega arith
