-- ===== src/Util/Atoi.antt =====
-- The C library's `atoi`, as util.c, osjitter.c and pingpong.c call it: the digits go through a `long`,
-- which saturates, and the `int` is given as its 32-bit pattern.
use Prim.Native.Nat.{min}
use osjitter.Prelude.{
  ℕ, ◌+◌, ◌-◌, ◌*◌, ◌%◌, ◌^◌, ◌≤◌, ◌<◌, ◌≡◌, refl, Bool, ◌&&◌, ◌||◌, List, [], ◌∷◌, All, arith, leb,
  ◌==◌, if◌then◌else◌,
}
use osjitter.Prelude.Text.{codes}
use osjitter.Prelude.Words.{u32}

abbrev pub is_digit : ℕ → Bool
is_digit c = leb b'0' c && leb c b'9'

abbrev is_space : ℕ → Bool
is_space c = c == 32 || (leb 9 c && leb c 13)

-- the number that the digits at the front spell, behind `n`
unfoldable pub digits : ℕ → List ℕ → ℕ
digits n [] = n
digits n (c ∷ s) = let rest = digits (n * 10 + (c - b'0')) s in if is_digit c then rest else n

abbrev long_max : ℕ
long_max = 0x7fff_ffff_ffff_ffff

unfoldable pub signed_digits : List ℕ → ℕ
unfolding digits
signed_digits [] = 0
signed_digits (c ∷ s) =
    if c == b'-'
    then (2 ^ 32 - min (digits 0 s) (long_max + 1) % 2 ^ 32) % 2 ^ 32
    else if c == b'+'
    then u32 (min (digits 0 s) long_max)
    else u32 (min (digits 0 (c ∷ s)) long_max)

unfoldable pub atoi : List ℕ → ℕ
unfolding signed_digits
atoi [] = 0
atoi (c ∷ s) = if is_space c then atoi s else signed_digits (c ∷ s)

atoi_runs :
    (atoi (codes " 2200000") ≡ 2200000)
    × (atoi (codes "-1") ≡ 0xffff_ffff)
    × (atoi (codes "12 MHz") ≡ 12)
    × (atoi (codes "x") ≡ 0)
    × (atoi (codes "4294967297") ≡ 1)
unfolding atoi
atoi_runs = (refl, refl, refl, refl, refl)

abbrev pub IsDigit : ℕ → Type 0
IsDigit c = (b'0' ≤ c) × (c ≤ b'9')

-- The value of a text of digits, by its last digit.
abbrev pub decimal : ℕ → List ℕ → ℕ
decimal n [] = n
decimal n (c ∷ s) = decimal (n * 10 + (c - b'0')) s

pub digits-decimal : (n : ℕ) (s : List ℕ) → All IsDigit s → digits n s ≡ decimal n s
unfolding digits
digits-decimal n [] h = refl
digits-decimal n (c ∷ s) h = ground (arith, digits-decimal (n * 10 + (c - b'0')) s h.1)

-- A text of digits that fits an `int` is read as its value.
pub atoi-decimal :
    (c : ℕ) (s : List ℕ)
    → All IsDigit (c ∷ s)
    → decimal 0 (c ∷ s) < 2 ^ 31
    → atoi (c ∷ s) ≡ decimal 0 (c ∷ s)
unfolding atoi
atoi-decimal c s h small = let value = digits-decimal 0 (c ∷ s) h in ground arith
