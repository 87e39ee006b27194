-- ===== src/Util/Percentile/Rank.antt =====
-- What `percentile_u32` of util.c returns: where the result lies among the elements, and when its
-- sum of two elements wraps.
use Prim.Native.Nat.{zero, suc}
use osjitter.Prelude.{
  ℕ, ◌+◌, ◌-◌, ◌*◌, ◌/◌, ◌^◌, ◌≤◌, ◌<◌, ◌≡◌, ◌↔◌, refl, Bool, true, List, [], ◌∷◌, some, All,
  All-get_or, All-map_of, count, length, get_or, ap, arith, leb,
}
use native.Mathlib.Nat.{
  mod-eq_of_lt, le-div_iff_mul-le, le_of_mul-le-mul_right, mul-le-mul_left, mul-le-mul_right,
  div-mul-le_self,
}
use native.Mathlib.Decide.{dec_lt}
use osjitter.Prelude.Words.{u64_mod}
use osjitter.Util.Sort.{IsAscending, All-le_trans}
use osjitter.Util.Percentile.{is_sorted_from, is_sorted, rank, pick, percentile_u32}

is_sorted_from_sound :
    (a : ℕ) (xs : List ℕ) → is_sorted_from a xs ≡ true → All (λ y. a ≤ y) xs × IsAscending xs
unfolding is_sorted_from
is_sorted_from_sound a [] h = (tt, tt)
is_sorted_from_sound a (x ∷ xs) h = ground (arith, is_sorted_from_sound x xs, All-le_trans a x xs)

is_sorted_from_complete :
    (a : ℕ) (xs : List ℕ) → All (λ y. a ≤ y) xs → IsAscending xs → is_sorted_from a xs ≡ true
unfolding is_sorted_from
is_sorted_from_complete a [] h k = refl
is_sorted_from_complete a (x ∷ xs) h k = ground (arith, is_sorted_from_complete x xs k.0 k.1)

pub rank-lt : (n a b : ℕ) → 0 < n → a < b → n * a < u64_mod → rank n a b < n
rank-lt n a b p q h = grind arith

pub get_or_mono :
    (xs : List ℕ) (i j : ℕ) → IsAscending xs → i ≤ j → j < length xs → get_or xs i 0 ≤ get_or xs j 0
get_or_mono [] i j h p q = absurd (omega arith)
get_or_mono (x ∷ xs) zero zero h p q = omega arith
get_or_mono (x ∷ xs) zero (suc j) h p q = All-get_or (λ y. x ≤ y) xs j 0 h.0 (omega arith)
get_or_mono (x ∷ xs) (suc i) zero h p q = absurd (omega arith)
get_or_mono (x ∷ xs) (suc i) (suc j) h p q = get_or_mono xs i j h.1 (omega arith) (omega arith)

-- The assertion of `percentile_u32` holds exactly for arrays in ascending order.
pub is_sorted_iff : (xs : List ℕ) → (is_sorted xs ≡ true) ↔ IsAscending xs
unfolding is_sorted
is_sorted_iff [] = (λ h. tt, λ h. refl)
is_sorted_iff (x ∷ xs) = (is_sorted_from_sound x xs, λ h. is_sorted_from_complete x xs h.0 h.1)

-- The ticks of a time below half the range of `uint32_t`.
abbrev pub AreSmall : List ℕ → Type 0
AreSmall xs = All (λ x. x < 2 ^ 31) xs

pub percentile-nil : (a b : ℕ) → percentile_u32 [] a b ≡ some 0
unfolding percentile_u32 is_sorted
percentile-nil a b = refl

-- No assertion fails.
pub percentile-pick :
    (xs : List ℕ) (a b : ℕ)
    → IsAscending xs
    → 0 < length xs
    → a < b
    → length xs * a < 2 ^ 64
    → percentile_u32 xs a b ≡ some (pick xs (rank (length xs) a b))
unfolding percentile_u32
percentile-pick xs a b asc pos lt fits =
    let sorted : is_sorted xs ≡ true = (is_sorted_iff xs).1 asc in
    let i-lt = rank-lt (length xs) a b pos lt fits in rw sorted (ground arith)

pub pick_bracket :
    (xs : List ℕ) (i : ℕ)
    → IsAscending xs
    → AreSmall xs
    → i < length xs
    → (get_or xs (i - 1) 0 ≤ pick xs i) × (pick xs i ≤ get_or xs i 0)
unfolding pick
pick_bracket xs i asc small lt =
    let ordered = get_or_mono xs (i - 1) i asc (omega arith) lt in
    let x_small : get_or xs i 0 < 2 ^ 31 = All-get_or (λ x. x < 2 ^ 31) xs i 0 small lt in
    ground arith

count-All : (p : ℕ → Bool) (xs : List ℕ) → All (λ x. p x ≡ true) xs → count p xs ≡ length xs
count-All p [] h = refl
count-All p (x ∷ xs) h = rw h.0 (omega (arith, count-All p xs h.1))

-- An element at index `i` that is at most `v` has `i` more before it.
count-at-most :
    (v : ℕ) (xs : List ℕ) (i : ℕ)
    → IsAscending xs
    → i < length xs
    → get_or xs i 0 ≤ v
    → i + 1 ≤ count (λ x. leb x v) xs
count-at-most v [] i asc lt le = absurd (omega arith)
count-at-most v (x ∷ xs) zero asc lt le = ground arith
count-at-most v (x ∷ xs) (suc i) asc lt le =
    let x-le : x ≤ get_or xs i 0 = All-get_or (λ y. x ≤ y) xs i 0 asc.0 (omega arith) in
    ground (arith, count-at-most v xs i asc.1)

count-at-least :
    (v : ℕ) (xs : List ℕ) (i : ℕ)
    → IsAscending xs
    → i < length xs
    → v ≤ get_or xs i 0
    → length xs ≤ i + count (λ x. leb v x) xs
count-at-least v [] i asc lt le = absurd (omega arith)
count-at-least v (x ∷ xs) zero asc lt le = omega (
  arith,
  count-All (λ y. leb v y) (x ∷ xs)
      (ground arith, All-map_of (λ y. x ≤ y) (λ y. leb v y ≡ true) (λ y h. ground arith) xs asc.0),
)
count-at-least v (x ∷ xs) (suc i) asc lt le = ground (arith, count-at-least v xs i asc.1)

-- The result splits the array at its rank: that many elements are not above it, and the others
-- are not below it.
pub percentile_splits :
    (xs : List ℕ) (a b v : ℕ)
    → IsAscending xs
    → AreSmall xs
    → 0 < length xs
    → a < b
    → length xs * a < 2 ^ 64
    → percentile_u32 xs a b ≡ some v
    → (length xs * a / b ≤ count (λ x. leb x v) xs)
      × (length xs ≤ length xs * a / b + count (λ x. leb v x) xs)
percentile_splits xs a b v asc small pos lt fits e =
    let i = rank (length xs) a b in
    let i-lt = rank-lt (length xs) a b pos lt fits in
    let exact : i ≡ length xs * a / b = rw (mod-eq_of_lt fits) in
    let same : pick xs i ≡ v = cc (percentile-pick xs a b asc pos lt fits) in
    let bracket = pick_bracket xs i asc small i-lt in
    (
      omega (arith, count-at-most v xs (i - 1) asc (omega arith) (omega arith)),
      omega (arith, count-at-least v xs i asc),
    )

rank_mono :
    (n a b c d : ℕ)
    → 0 < b
    → 0 < d
    → a * d ≤ c * b
    → n * a < 2 ^ 64
    → n * c < 2 ^ 64
    → rank n a b ≤ rank n c d
rank_mono n a b c d pb pd h fa fc =
    rw (mod-eq_of_lt fa, mod-eq_of_lt fc)
      ((le-div_iff_mul-le pd).1 (
        le_of_mul-le-mul_right
          (let q = n * a / b in
            let h' : n * (a * d) ≤ n * (c * b) = mul-le-mul_left n h in
            let k : q * b * d ≤ n * a * d = mul-le-mul_right d (div-mul-le_self (n * a) b) in
            omega arith)
          pb))

-- A higher percentile of the same array is not smaller.
pub percentile_mono :
    (xs : List ℕ) (a b c d v w : ℕ)
    → IsAscending xs
    → AreSmall xs
    → a < b
    → c < d
    → a * d ≤ c * b
    → length xs * a < 2 ^ 64
    → length xs * c < 2 ^ 64
    → percentile_u32 xs a b ≡ some v
    → percentile_u32 xs c d ≡ some w
    → v ≤ w
percentile_mono [] a b c d v w asc small lt lt' h fa fc e f =
    let same : v ≡ w = cc (percentile-nil a b, percentile-nil c d) in omega arith
percentile_mono (x ∷ xs) a b c d v w asc small lt lt' h fa fc e f =
    let ys = x ∷ xs in
    let n = length ys in
    let i = rank n a b in
    let j = rank n c d in
    let v-eq : pick ys i ≡ v = cc (percentile-pick ys a b asc (omega arith) lt fa) in
    let w-eq : pick ys j ≡ w = cc (percentile-pick ys c d asc (omega arith) lt' fc) in
    let i-le : i ≤ j = rank_mono n a b c d (omega arith) (omega arith) h fa fc in
    let j-lt : j < n = rank-lt n c d (omega arith) lt' fc in
    let low = pick_bracket ys j asc small j-lt in
    let high = pick_bracket ys i asc small (omega arith) in
    elim (dec_lt i j) [
      | yes below ↦ omega (arith, get_or_mono ys i (j - 1) asc (omega arith) (omega arith))
      | no level ↦ let i-eq : i ≡ j = omega arith in omega (arith, ap (pick ys) i-eq)
    ]
