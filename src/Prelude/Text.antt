-- ===== src/Prelude/Text.antt =====
-- C strings as lists of byte codes, without the terminating NUL.
use Prim.Native.Char.{code}
use Prim.Native.String.{String}
use Prim.Native.Nat.{ℕ}
use mathlib.Core.Bool.{Bool, true, false, ◌&&◌}
use mathlib.Core.List.{List, [], ◌∷◌}
use mathlib.Core.Path.{◌≡◌, refl, sym, ◌∙◌, ap₂}
use mathlib.Core.Logic.{◌≢◌, inl, inr}
use osjitter.Prelude.Tests.{◌==◌, ==→≡, Bool-cases}

abbrev pub codes : String → List ℕ
codes String.[] = []
codes (String.◌∷◌ c s) = code c ∷ codes s

-- `!strcmp(a, b)`
abbrev pub str_eq : List ℕ → List ℕ → Bool
str_eq [] [] = true
str_eq (x ∷ xs) (y ∷ ys) = x == y && str_eq xs ys
str_eq _ _ = false

pub str_eq→≡ : (a b : List ℕ) → str_eq a b ≡ true → a ≡ b
str_eq→≡ [] [] h = refl
str_eq→≡ [] (y ∷ ys) h = cc
str_eq→≡ (x ∷ xs) [] h = cc
str_eq→≡ (x ∷ xs) (y ∷ ys) h = elim (Bool-cases (x == y)) [
  | inl same ↦ ap₂ ◌∷◌ (==→≡ x y same) (str_eq→≡ xs ys (sym (rw same refl) ∙ h))
  | inr differ ↦ absurd (no_confusion (sym h ∙ rw differ refl))
]
  where
    no_confusion : true ≢ false
    no_confusion e = cc
