-- ===== src/Util/Mad.antt =====
-- `mad_u32` of util.c, the median absolute deviation. The buffer `y` that the caller lends is local:
-- no caller reads it.
pub mod Spread
use osjitter.Prelude.{
  ℕ, ◌+◌, ◌-◌, ◌*◌, ◌/◌, ◌^◌, ◌≤◌, ◌<◌, ◌≡◌, refl, Bool, List, [], ◌∷◌, map, Option, none, some,
  All, All-get_or, All-map_of, count, length, get_or, arith, ltb, leb, ◌==◌, if◌then◌else◌,
}
use osjitter.Util.Sort.{
  cmp_u32, qsort, IsAscending, All-qsort, count-qsort, length-qsort, qsort-IsAscending,
}
use osjitter.Util.Percentile.{rank, pick, percentile_u32}
use osjitter.Util.Percentile.Rank.{
  AreSmall, rank-lt, percentile-pick, pick_bracket, percentile_splits,
}

-- `labs((long)a - (long)b)`, which always fits `uint32_t` again
unfoldable pub abs_diff : ℕ → ℕ → ℕ
abs_diff a b = if ltb a b then b - a else a - b

unfoldable pub mad_u32 : List ℕ → Option ℕ
mad_u32 x = if length x == 0 then some 0 else elim (percentile_u32 x 1 2) [
  | none ↦ none
  | some median ↦ percentile_u32 (qsort cmp_u32 (map (λ v. abs_diff v median) x)) 1 2
]

mad_u32_runs : mad_u32 (1 ∷ 1 ∷ 2 ∷ 2 ∷ 4 ∷ 6 ∷ 9 ∷ []) ≡ some 1
unfolding mad_u32 percentile_u32 pick osjitter.Util.Percentile.is_sorted qsort cmp_u32 abs_diff
mad_u32_runs = refl
