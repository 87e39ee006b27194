-- ===== src/Util/Percentile/Wrap.antt =====
-- The sum of two elements in `percentile_u32` of util.c is a `uint32_t`: where it wraps.
use osjitter.Prelude.{
  ℕ, ◌+◌, ◌-◌, ◌*◌, ◌%◌, ◌^◌, ◌≤◌, ◌<◌, ◌≡◌, List, some, All, All-get_or, length, get_or, arith,
}
use osjitter.Util.Sort.{IsAscending}
use osjitter.Util.Percentile.{rank, pick, percentile_u32}
use osjitter.Util.Percentile.Rank.{rank-lt, percentile-pick}

-- Where the two elements at the rank of an even array add up to 2 ^ 32 or more, the result is
-- smaller than both.
pub percentile_wraps :
    (xs : List ℕ) (a b v : ℕ)
    → IsAscending xs
    → All (λ x. x < 2 ^ 32) xs
    → 0 < length xs
    → length xs % 2 ≡ 0
    → a < b
    → length xs * a < 2 ^ 64
    → 0 < rank (length xs) a b
    → 2 ^ 32 ≤ get_or xs (rank (length xs) a b) 0 + get_or xs (rank (length xs) a b - 1) 0
    → percentile_u32 xs a b ≡ some v
    → (v < get_or xs (rank (length xs) a b - 1) 0) × (v < get_or xs (rank (length xs) a b) 0)
unfolding pick
percentile_wraps xs a b v asc fits full even lt small pos wraps e =
    let i = rank (length xs) a b in
    let i-lt = rank-lt (length xs) a b full lt small in
    let v-eq : pick xs i ≡ v = cc (percentile-pick xs a b asc full lt small) in
    let x_fits = All-get_or (λ x. x < 2 ^ 32) xs i 0 fits i-lt in
    let y_fits = All-get_or (λ x. x < 2 ^ 32) xs (i - 1) 0 fits (omega arith) in ground arith
