-- ===== src/Util/Scale/Best.antt =====
-- Which shift the `for` loop of `clocks_calc_mult_shift` in util.c stops at.
use Prim.Native.Nat.{zero, suc}
use osjitter.Prelude.{ℕ, ◌+◌, ◌*◌, ◌/◌, ◌^◌, ◌≤◌, ◌<◌, ◌≡◌, some, arith, ◌==◌, inl, inr, Bool-cases}
use osjitter.Prelude.Words.{sub32, u32_mod}
use native.Mathlib.Nat.{two-pow-succ, mul-le-mul_right}
use osjitter.Util.Scale.{acc_loop, scaled, shift_loop}

module _ (from to acc : ℕ) where
  -- Left by `break`, the loop has found a multiplier that fits.
  pub shift_loop_fits :
      (s tmp : ℕ)
      → 0 < (shift_loop s from to acc tmp).1
      → ((shift_loop s from to acc tmp).0 ≡ scaled from to (shift_loop s from to acc tmp).1)
        × ((shift_loop s from to acc tmp).0 / 2 ^ acc ≡ 0)
        × ((shift_loop s from to acc tmp).1 ≤ s)
  unfolding shift_loop
  shift_loop_fits zero tmp h = absurd (omega arith)
  shift_loop_fits (suc s) tmp h = ground (arith, shift_loop_fits s (scaled from to (suc s)))

  -- It stops at the largest shift whose multiplier fits.
  pub shift_loop_best :
      (s tmp k : ℕ)
      → 0 < k
      → k ≤ s
      → scaled from to k / 2 ^ acc ≡ 0
      → k ≤ (shift_loop s from to acc tmp).1
  unfolding shift_loop
  shift_loop_best zero tmp k pos le h = absurd (omega arith)
  shift_loop_best (suc s) tmp k pos le h =
      ground (arith, shift_loop_best s (scaled from to (suc s)) k)

-- The accumulator of the first loop: how often `tmp` can be halved is taken off.
pub acc_loop_fits :
    (f tmp s : ℕ)
    → tmp < 2 ^ f
    → f ≤ s
    → s < u32_mod
    → (r : ℕ) × (acc_loop (suc f) tmp s ≡ some r) × (r ≤ s) × ((tmp + 1) * 2 ^ r ≤ 2 ^ s)
unfolding acc_loop
acc_loop_fits zero tmp s lt le fits =
    let none_left : tmp ≡ 0 = omega arith in
    (s, rw none_left, omega arith, rw none_left (omega arith))
acc_loop_fits (suc f) tmp zero lt le fits = absurd (omega arith)
acc_loop_fits (suc f) tmp (suc s) lt le fits = elim (Bool-cases (tmp == 0)) [
  | inl done ↦
      let none_left : tmp ≡ 0 = ground arith in
      (suc s, rw none_left, omega arith, rw none_left (omega arith))
  | inr more ↦
      let (r, found, r-le, bound) =
        acc_loop_fits f (tmp / 2) s (omega (arith, two-pow-succ f)) (omega arith) (omega arith) in
      let less : sub32 (suc s) 1 ≡ s = omega arith in
      let twice : (tmp + 1) * 2 ^ r ≤ 2 * (tmp / 2 + 1) * 2 ^ r =
        mul-le-mul_right (2 ^ r) (omega arith) in
      (r, rw (more, less) found, omega arith, omega (arith, two-pow-succ s))
]
