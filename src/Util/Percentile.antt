-- ===== src/Util/Percentile.antt =====
-- `is_sorted` and `percentile_u32` of util.c. An array with its length is the list of its elements;
-- `none` is an assertion that fails (the makefile leaves assertions on).
pub mod Rank
pub mod Wrap
use Prim.Native.Nat.{zero}
use osjitter.Prelude.{
  ℕ, ◌+◌, ◌-◌, ◌*◌, ◌/◌, ◌%◌, ◌≡◌, refl, Bool, true, false, not, ◌||◌, List, [], ◌∷◌, Option, none,
  some, length, get_or, ltb, ◌==◌, if◌then◌else◌,
}
use osjitter.Prelude.Words.{u32, u64}

-- the loop of `is_sorted`, with `a` the element before
unfoldable pub is_sorted_from : ℕ → List ℕ → Bool
is_sorted_from a [] = true
is_sorted_from a (x ∷ xs) = if ltb x a then false else is_sorted_from x xs

unfoldable pub is_sorted : List ℕ → Bool
unfolding is_sorted_from
is_sorted [] = true
is_sorted (x ∷ xs) = is_sorted_from x xs

-- `size_t i = n * a / b`
abbrev pub rank : ℕ → ℕ → ℕ → ℕ
rank n a b = u64 (n * a) / b

-- the last test of `percentile_u32`: `x[i]`, or the mean with the element before
unfoldable pub pick : List ℕ → ℕ → ℕ
pick x i =
    if not (length x % 2 == 0) || i == 0
    then get_or x i 0
    else u32 (get_or x i 0 + get_or x (i - 1) 0) / 2

unfoldable pub percentile_u32 : List ℕ → ℕ → ℕ → Option ℕ
percentile_u32 x a b =
    let n = length x in
    let i = rank n a b in
    if not (is_sorted x)
    then none
    else if n == 0
    then some 0
    else if not (ltb i n)
    then none
    else some (pick x i)

percentile_u32_runs :
    (percentile_u32 (1 ∷ 4 ∷ 6 ∷ 9 ∷ []) 1 2 ≡ some 5)
    × (percentile_u32 (1 ∷ 4 ∷ 6 ∷ []) 999 1000 ≡ some 6)
    × (percentile_u32 (4 ∷ 1 ∷ []) 1 2 ≡ none)
unfolding percentile_u32 pick is_sorted
percentile_u32_runs = (refl, refl, refl)
