-- ===== src/Util/Mad/Spread.antt =====
-- What `mad_u32` of util.c measures: how far the values lie from their median.
use osjitter.Prelude.{
  ℕ, ◌+◌, ◌-◌, ◌/◌, ◌^◌, ◌≤◌, ◌<◌, ◌≡◌, refl, Bool, List, [], ◌∷◌, map, some, All, All-get_or,
  All-map_of, count, length, arith, leb,
}
use osjitter.Util.Sort.{
  cmp_u32, qsort, IsAscending, All-qsort, count-qsort, length-qsort, qsort-IsAscending,
}
use osjitter.Util.Percentile.{rank, pick, percentile_u32}
use osjitter.Util.Percentile.Rank.{
  AreSmall, rank-lt, percentile-pick, pick_bracket, percentile_splits,
}
use osjitter.Util.Mad.{abs_diff, mad_u32}

length-deviations : (m : ℕ) (xs : List ℕ) → length (map (λ v. abs_diff v m) xs) ≡ length xs
length-deviations m [] = refl
length-deviations m (x ∷ xs) = omega (arith, length-deviations m xs)

count-deviations :
    (m : ℕ) (p : ℕ → Bool) (xs : List ℕ)
    → count p (map (λ v. abs_diff v m) xs) ≡ count (λ v. p (abs_diff v m)) xs
count-deviations m p [] = refl
count-deviations m p (x ∷ xs) = omega (arith, count-deviations m p xs)

-- Deviations from a value between the bounds are at most as large as their distance.
deviations-le :
    (m lo hi : ℕ) (xs : List ℕ)
    → lo ≤ m
    → m ≤ hi
    → All (λ x. (lo ≤ x) × (x ≤ hi)) xs
    → All (λ d. d ≤ hi - lo) (map (λ v. abs_diff v m) xs)
unfolding abs_diff
deviations-le m lo hi [] p q h = tt
deviations-le m lo hi (x ∷ xs) p q h = (ground arith, deviations-le m lo hi xs p q h.1)

module _ (xs : List ℕ) (asc : IsAscending xs) (full : 0 < length xs)
    (fits : length xs < 2 ^ 63) where
  abbrev middle : ℕ
  middle = rank (length xs) 1 2

  abbrev median : ℕ
  median = pick xs middle

  abbrev deviations : List ℕ
  deviations = qsort cmp_u32 (map (λ v. abs_diff v median) xs)

  length-sorted : length deviations ≡ length xs
  length-sorted =
      omega
        (arith, length-qsort cmp_u32 (map (λ v. abs_diff v median) xs), length-deviations median xs)

  median-eq : percentile_u32 xs 1 2 ≡ some median
  median-eq = percentile-pick xs 1 2 asc full (omega arith) (omega arith)

  -- No assertion fails in `mad_u32`.
  mad-pick : mad_u32 xs ≡ some (pick deviations (rank (length deviations) 1 2))
  unfolding mad_u32
  mad-pick = rw (median-eq) (
      ground (
        arith,
        percentile-pick deviations 1 2 (qsort-IsAscending _) (omega (arith, length-sorted))
            (omega arith) (omega (arith, length-sorted)),
      ))

  -- All values lie between two bounds that are far from wrapping.
  module _ (lo hi : ℕ) (top : hi < 2 ^ 31) (within : All (λ x. (lo ≤ x) × (x ≤ hi)) xs) where
    small : AreSmall xs
    small = All-map_of _ (λ x. x < 2 ^ 31) (λ x h. omega arith) xs within

    middle-lt : middle < length xs
    middle-lt = rank-lt (length xs) 1 2 full (omega arith) (omega arith)

    median-between : (lo ≤ median) × (median ≤ hi)
    median-between =
        let bracket = pick_bracket xs middle asc small middle-lt in
        let at = All-get_or (λ x. (lo ≤ x) × (x ≤ hi)) xs middle 0 within middle-lt in
        let before = All-get_or (λ x. (lo ≤ x) × (x ≤ hi)) xs (middle - 1) 0 within (omega arith) in
        (omega arith, omega arith)

    deviations_within : All (λ d. d ≤ hi - lo) deviations
    deviations_within =
        All-qsort cmp_u32 _ (map (λ v. abs_diff v median) xs)
          (deviations-le median lo hi xs median-between.0 median-between.1 within)

    deviations-AreSmall : AreSmall deviations
    deviations-AreSmall =
        All-map_of _ (λ x. x < 2 ^ 31) (λ x h. omega arith) deviations deviations_within

    -- The deviation is not larger than the distance of the bounds.
    pub mad-le-range : (m : ℕ) → mad_u32 xs ≡ some m → m ≤ hi - lo
    mad-le-range m e =
        let i = rank (length deviations) 1 2 in
        let i-lt =
          rank-lt (length deviations) 1 2 (omega (arith, length-sorted)) (omega arith)
            (omega (arith, length-sorted)) in
        let m-eq : pick deviations i ≡ m = cc mad-pick in
        let bracket = pick_bracket deviations i (qsort-IsAscending _) deviations-AreSmall i-lt in
        let at = All-get_or (λ d. d ≤ hi - lo) deviations i 0 deviations_within i-lt in omega arith

  -- Half of the values lie within the deviation of the median, and half not nearer.
  pub mad_splits :
      AreSmall xs
      → (med : ℕ) × (m : ℕ) × (percentile_u32 xs 1 2 ≡ some med)
        × (mad_u32 xs ≡ some m)
        × (length xs / 2 ≤ count (λ v. leb (abs_diff v med) m) xs)
        × (length xs ≤ length xs / 2 + count (λ v. leb m (abs_diff v med)) xs)
  mad_splits small_xs =
      let within : All (λ x. (0 ≤ x) × (x ≤ 2 ^ 31 - 1)) xs =
        All-map_of _ (λ x. (0 ≤ x) × (x ≤ 2 ^ 31 - 1)) (λ x h. (omega arith, omega arith)) xs
          small_xs in
      let m = pick deviations (rank (length deviations) 1 2) in
      let dev_small = deviations-AreSmall 0 (2 ^ 31 - 1) (omega arith) within in
      let found =
        percentile-pick deviations 1 2 (qsort-IsAscending _) (omega (arith, length-sorted))
          (omega arith) (omega (arith, length-sorted)) in
      let split =
        percentile_splits deviations 1 2 m (qsort-IsAscending _) dev_small
          (omega (arith, length-sorted)) (omega arith) (omega (arith, length-sorted)) found in
      let ds = map (λ v. abs_diff v median) xs in
      (
        median,
        m,
        median-eq,
        mad-pick,
        omega (
          arith,
          length-sorted,
          count-qsort cmp_u32 (λ d. leb d m) ds,
          count-deviations median (λ d. leb d m) xs,
        ),
        omega (
          arith,
          length-sorted,
          count-qsort cmp_u32 (λ d. leb m d) ds,
          count-deviations median (λ d. leb m d) xs,
        ),
      )
