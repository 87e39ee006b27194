-- ===== src/Ptp/Device/Names.antt =====
-- The names of the devices that `get_ptp_dev` composes.
use Prim.Native.Nat.{zero, suc}
use osjitter.Prelude.{
  ℕ, ◌+◌, ◌-◌, ◌*◌, ◌/◌, ◌%◌, ◌^◌, ◌<◌, ◌≡◌, ◌≢◌, refl, ◌∙◌, inl, inr, List, [], ◌∷◌, ◌++◌, All,
  All-append, ltb, Bool-cases, arith,
}
use mathlib.Core.Path.{subst}
use native.Mathlib.Nat.{div-lt_iff_lt-mul, pow-suc}
use osjitter.Prelude.Int.{pos}
use osjitter.Util.Atoi.{atoi, atoi-decimal, decimal, IsDigit}
use osjitter.Ptp.Device.{show_ℕ, show_int}

decimal-append : (k c : ℕ) (s : List ℕ) → decimal k (s ++ c ∷ []) ≡ decimal k s * 10 + (c - b'0')
decimal-append k c [] = refl
decimal-append k c (d ∷ s) = decimal-append (k * 10 + (d - b'0')) c s

show_digits : (f n : ℕ) → All IsDigit (show_ℕ f n)
unfolding show_ℕ
show_digits zero n = tt
show_digits (suc f) n = elim (Bool-cases (ltb n 10)) [
  | inl last ↦ rw last ((omega arith, ground arith), tt)
  | inr more ↦ rw more (
      All-append IsDigit (show_ℕ f (n / 10)) _ (show_digits f (n / 10))
        ((omega arith, omega arith), tt))
]

decimal-show : (f n : ℕ) → n < 10 ^ f → decimal 0 (show_ℕ f n) ≡ n
unfolding show_ℕ
decimal-show zero n small = omega arith
decimal-show (suc f) n small = elim (Bool-cases (ltb n 10)) [
  | inl last ↦ rw last (omega arith)
  | inr more ↦
      let front : n / 10 < 10 ^ f =
        (div-lt_iff_lt-mul {k = 10} (omega arith)).1 (subst (λ p. n < p) (pow-suc 10 f) small) in
      rw (more, decimal-append 0 (b'0' + n % 10) (show_ℕ f (n / 10)), decimal-show f (n / 10) front)
        (omega arith)
]

append-ne : (xs : List ℕ) (c : ℕ) → xs ++ c ∷ [] ≢ []
append-ne [] c h = cc
append-ne (x ∷ xs) c h = cc

show_nonempty : (f n : ℕ) → show_ℕ (suc f) n ≢ []
unfolding show_ℕ
show_nonempty f n = elim (Bool-cases (ltb n 10)) [
  | inl last ↦ rw last (λ h. cc)
  | inr more ↦ rw more (append-ne (show_ℕ f (n / 10)) (b'0' + n % 10))
]

atoi-digits : (s : List ℕ) → s ≢ [] → All IsDigit s → decimal 0 s < 2 ^ 31 → atoi s ≡ decimal 0 s
atoi-digits [] nonempty digits small = absurd (nonempty refl)
atoi-digits (c ∷ s) nonempty digits small = atoi-decimal c s digits small

-- The index of a clock, an `int`, can be read back from the name of its device by `atoi`.
pub atoi-show_int : (n : ℕ) → n < 2 ^ 31 → atoi (show_int (pos n)) ≡ n
unfolding show_int
atoi-show_int n small =
    let value = decimal-show 10 n (omega arith) in
    atoi-digits (show_ℕ 10 n) (show_nonempty 9 n) (show_digits 10 n) (rw value small) ∙ value
