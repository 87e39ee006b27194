-- ===== src/Util/Sort.antt =====
-- `cmp_u32` of util.h, and the C library's `qsort` as the sources call it: an array is the list of
-- its elements, and sorting is by the sign of the comparator's result.
use osjitter.Prelude.{
  ℕ, ◌+◌, ◌≤◌, ◌≡◌, refl, Bool, List, [], ◌∷◌, All, count, length, arith, ltb, if◌then◌else◌,
}
use osjitter.Prelude.Int.{ℤ, pos, negsuc, ltb_ℤ}

unfoldable pub cmp_u32 : ℕ → ℕ → ℤ
cmp_u32 x y = if ltb x y then negsuc 0 else if ltb y x then pos 1 else pos 0

-- Puts `x` before the first element that it does not come after.
unfoldable pub insert : (ℕ → ℕ → ℤ) → ℕ → List ℕ → List ℕ
insert cmp x [] = x ∷ []
insert cmp x (y ∷ ys) = if ltb_ℤ (pos 0) (cmp x y) then y ∷ insert cmp x ys else x ∷ y ∷ ys

unfoldable pub qsort : (ℕ → ℕ → ℤ) → List ℕ → List ℕ
unfolding insert
qsort cmp [] = []
qsort cmp (x ∷ xs) = insert cmp x (qsort cmp xs)

abbrev pub IsAscending : List ℕ → Type 0
IsAscending [] = Unit
IsAscending (x ∷ xs) = All (λ y. x ≤ y) xs × IsAscending xs

module _ {κ} (cmp : ℕ → ℕ → ℤ) (P : ℕ → Type κ) where
  All-insert : (x : ℕ) (xs : List ℕ) → P x → All P xs → All P (insert cmp x xs)
  unfolding insert
  All-insert x [] p h = (p, tt)
  All-insert x (y ∷ ys) p h =
      elim (ltb_ℤ (pos 0) (cmp x y))
        as (λ b. All P (if b then y ∷ insert cmp x ys else x ∷ y ∷ ys)) [
          | Bool.true ↦ (h.0, All-insert x ys p h.1)
          | Bool.false ↦ (p, h)
        ]

  -- Sorting keeps a property that all elements have.
  pub All-qsort : (xs : List ℕ) → All P xs → All P (qsort cmp xs)
  unfolding qsort
  All-qsort [] h = tt
  All-qsort (x ∷ xs) h = All-insert x (qsort cmp xs) h.0 (All-qsort xs h.1)

count-insert :
    (cmp : ℕ → ℕ → ℤ) (p : ℕ → Bool) (x : ℕ) (xs : List ℕ)
    → count p (insert cmp x xs) ≡ (if p x then 1 else 0) + count p xs
unfolding insert
count-insert cmp p x [] = refl
count-insert cmp p x (y ∷ ys) = ground (arith, count-insert cmp p x ys)

-- Sorting keeps how many elements pass any test: it permutes.
pub count-qsort :
    (cmp : ℕ → ℕ → ℤ) (p : ℕ → Bool) (xs : List ℕ) → count p (qsort cmp xs) ≡ count p xs
unfolding qsort
count-qsort cmp p [] = refl
count-qsort cmp p (x ∷ xs) =
    omega (arith, count-insert cmp p x (qsort cmp xs), count-qsort cmp p xs)

length-insert : (cmp : ℕ → ℕ → ℤ) (x : ℕ) (xs : List ℕ) → length (insert cmp x xs) ≡ length xs + 1
unfolding insert
length-insert cmp x [] = refl
length-insert cmp x (y ∷ ys) = ground (arith, length-insert cmp x ys)

pub length-qsort : (cmp : ℕ → ℕ → ℤ) (xs : List ℕ) → length (qsort cmp xs) ≡ length xs
unfolding qsort
length-qsort cmp [] = refl
length-qsort cmp (x ∷ xs) = omega (arith, length-insert cmp x (qsort cmp xs), length-qsort cmp xs)

pub All-le_trans : (x y : ℕ) (ys : List ℕ) → x ≤ y → All (λ z. y ≤ z) ys → All (λ z. x ≤ z) ys
All-le_trans x y [] h a = tt
All-le_trans x y (z ∷ zs) h a = (omega arith, All-le_trans x y zs h a.1)

insert-IsAscending : (x : ℕ) (xs : List ℕ) → IsAscending xs → IsAscending (insert cmp_u32 x xs)
unfolding insert cmp_u32
insert-IsAscending x [] h = (tt, tt)
insert-IsAscending x (y ∷ ys) h =
    ground (
      arith,
      insert-IsAscending x ys h.1,
      All-insert cmp_u32 (λ z. y ≤ z) x ys,
      All-le_trans x y ys,
    )

-- With `cmp_u32` the result is in ascending order.
pub qsort-IsAscending : (xs : List ℕ) → IsAscending (qsort cmp_u32 xs)
unfolding qsort
qsort-IsAscending [] = tt
qsort-IsAscending (x ∷ xs) = insert-IsAscending x (qsort cmp_u32 xs) (qsort-IsAscending xs)
