-- ===== src/Util/Examples.antt =====
-- The theorems on util.h and util.c at concrete inputs.
use osjitter.Prelude.{
  ℕ, ◌+◌, ◌*◌, ◌/◌, ◌^◌, ◌≤◌, ◌<◌, ◌≡◌, refl, List, [], ◌∷◌, some, count, arith, leb,
}
use osjitter.Util.Percentile.{is_sorted, pick, percentile_u32}
use osjitter.Util.Percentile.Rank.{percentile_splits}
use osjitter.Util.Percentile.Wrap.{percentile_wraps}
use osjitter.Util.Mad.{abs_diff, mad_u32}
use osjitter.Util.Mad.Spread.{mad_splits}
use osjitter.Util.Scale.{mul_u64_u32_shr, acc_loop, scaled, shift_loop, clocks_calc_mult_shift}
use osjitter.Util.Scale.Range.{mult_no_overflow}
use osjitter.Util.Scale.Error.{conversion_error}

abbrev sample : List ℕ
sample = 1 ∷ 4 ∷ 6 ∷ 9 ∷ []

-- Two interruptions of about a second each at 3 GHz.
abbrev seconds : List ℕ
seconds = 3_000_000_000 ∷ 3_000_000_000 ∷ []

percentile_splits_example :
    (2 ≤ count (λ x. leb x 5) sample) × (4 ≤ 2 + count (λ x. leb 5 x) sample)
unfolding percentile_u32 pick is_sorted
percentile_splits_example =
    percentile_splits sample 1 2 5 (omega arith) (omega arith) (omega arith) (omega arith)
      (omega arith) refl

percentile_wraps_example : (852_516_352 < 3_000_000_000) × (852_516_352 < 3_000_000_000)
unfolding percentile_u32 pick is_sorted
percentile_wraps_example =
    percentile_wraps seconds 1 2 852_516_352 (omega arith) (omega arith) (omega arith) refl
      (omega arith) (omega arith) (omega arith) (omega arith) refl

mad_splits_example :
    (med : ℕ) × (m : ℕ) × (percentile_u32 sample 1 2 ≡ some med)
    × (mad_u32 sample ≡ some m)
    × (2 ≤ count (λ v. leb (abs_diff v med) m) sample)
    × (4 ≤ 2 + count (λ v. leb m (abs_diff v med)) sample)
mad_splits_example = mad_splits sample (omega arith) (omega arith) (omega arith) (omega arith)

-- 600 000 s of a counter at 2.2 MHz.
mult_no_overflow_example : 1_320_000_000_000 * 7_626_007 < 2 ^ 64
unfolding acc_loop scaled shift_loop clocks_calc_mult_shift
mult_no_overflow_example =
    mult_no_overflow 2200000 1000000 600000 1_320_000_000_000 7_626_007 24 (omega arith)
      (omega arith) (omega arith) refl (omega arith) (omega arith)

conversion_error_example :
    (2200000 * mul_u64_u32_shr 6_600 1_952_257_862 32 * 2 ^ 32
      ≤ 6_600 * (1000000 * 2 ^ 32 + 2200000 / 2))
    × (6_600 * (1000000 * 2 ^ 32)
        ≤ 2200000 * (mul_u64_u32_shr 6_600 1_952_257_862 32 + 1) * 2 ^ 32 + 6_600 * (2200000 / 2))
conversion_error_example =
    conversion_error 2200000 1_952_257_862 32 6_600 (omega arith) refl (omega arith)
