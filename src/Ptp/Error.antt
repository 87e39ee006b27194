-- ===== src/Ptp/Error.antt =====
-- How good the offsets of `Ptp.Clock` are: the error of `off`, and the times for which the arithmetic
-- stays in 64 bits.
use osjitter.Prelude.{◌^◌, ◌<◌, ◌≡◌, refl, some, arith, of_some, sym, ap, ◌∙◌}
use osjitter.Prelude.Int.{ℤ, pos, negsuc, pos_part, neg_part, ◌+ℤ◌, ◌-ℤ◌, ◌≤ℤ◌, int_laws}
use osjitter.Prelude.Options.{>>=-eq-some}
use osjitter.Ptp.Clock.{int64, half, Reading, reading}

-- Half of a number is off by at most one half.
half_close : (b : ℤ) → (half b +ℤ half b ≤ℤ b +ℤ pos 1) × (b ≤ℤ half b +ℤ half b +ℤ pos 1)
unfolding ◌+ℤ◌
half_close (pos n) = ground arith
half_close (negsuc n) = ground arith

int64-eq : {a b : ℤ} → int64 a ≡ some b → b ≡ a
int64-eq {a = pos n} h = ground arith
int64-eq {a = negsuc n} h = ground arith

-- `o` is within half the delay of the reported offset, and half a nanosecond of rounding.
abbrev pub IsWithin : ℤ → Reading → Type 0
IsWithin o r =
    (r.off +ℤ r.off ≤ℤ o +ℤ o +ℤ r.delay +ℤ pos 1) × (o +ℤ o ≤ℤ r.off +ℤ r.off +ℤ r.delay +ℤ pos 1)

-- The parts of a reading that has a value.
reading_parts :
    (a d c : ℤ) {r : Reading}
    → reading (some a) (some d) (some c) ≡ some r
    → (r.delay ≡ c -ℤ a) × (r.off ≡ half (a +ℤ c) -ℤ d)
unfolding reading
reading_parts a d c h =
    let (delay, e1, h1) = >>=-eq-some (int64 (c -ℤ a)) _ h in
    let (both, e2, h2) = >>=-eq-some (int64 (a +ℤ c)) _ h1 in
    let (off, e3, h3) = >>=-eq-some (int64 (half both -ℤ d)) _ h2 in
    let same_delay = int64-eq {a = c -ℤ a} e1 in
    let same_both = int64-eq {a = a +ℤ c} e2 in
    let same_off = int64-eq {a = half both -ℤ d} e3 ∙ ap (λ b. half b -ℤ d) same_both in
    let result = sym (of_some h3) in
    (ap (λ s. s.delay) result ∙ same_delay, ap (λ s. s.off) result ∙ same_off)

-- If the device shows d at the time x of the system, between the times a and c at which the system
-- was read, then the reported offset is that of the device up to half of the reported delay.
pub reading-IsWithin :
    (a d c x : ℤ) {r : Reading}
    → a ≤ℤ x
    → x ≤ℤ c
    → reading (some a) (some d) (some c) ≡ some r
    → IsWithin (x -ℤ d) r
reading-IsWithin a d c x {r} ha hc h =
    let (delay, off) = reading_parts a d c h in
    let close = half_close (a +ℤ c) in rw (delay, off) (omega int_laws, omega int_laws)

-- the offset and the delay, where no sum overflows
abbrev pub exact : ℤ → ℤ → ℤ → Reading
exact a d c = record { off = half (a +ℤ c) -ℤ d; delay = c -ℤ a }

-- between -2 ^ 62 and 2 ^ 62
abbrev pub IsSmall : ℤ → Type 0
IsSmall a = (pos_part a < 2 ^ 62) × (neg_part a < 2 ^ 62)

int64-sum : (a b : ℤ) → IsSmall a → IsSmall b → int64 (a +ℤ b) ≡ some (a +ℤ b)
unfolding ◌+ℤ◌
int64-sum a b ha hb = ground (arith, ha, hb)

int64-difference : (a b : ℤ) → IsSmall a → IsSmall b → int64 (a -ℤ b) ≡ some (a -ℤ b)
unfolding ◌-ℤ◌
int64-difference a b ha hb = ground (arith, ha, hb)

half-IsSmall : (a b : ℤ) → IsSmall a → IsSmall b → IsSmall (half (a +ℤ b))
unfolding ◌+ℤ◌
half-IsSmall a b ha hb = ground (arith, ha, hb)

pub reading-exact :
    (a d c : ℤ)
    → IsSmall a
    → IsSmall d
    → IsSmall c
    → reading (some a) (some d) (some c) ≡ some (exact a d c)
unfolding reading
reading-exact a d c ha hd hc =
    rw
      (
        int64-difference c a hc ha,
        int64-sum a c ha hc,
        int64-difference (half (a +ℤ c)) d (half-IsSmall a c ha hc) hd,
      )
      refl
