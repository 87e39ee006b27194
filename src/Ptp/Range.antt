-- ===== src/Ptp/Range.antt =====
-- The times for which the conversions of `Ptp.Clock` and the sums of `reading` stay in 64 bits.
use osjitter.Prelude.{ℕ, ◌+◌, ◌*◌, ◌/◌, ◌^◌, ◌<◌, ◌≡◌, refl, some, arith}
use osjitter.Prelude.Int.{pos, ◌+ℤ◌, ◌-ℤ◌, ◌*ℤ◌, sub_ℕ}
use osjitter.Prelude.Options.{◌>>=◌}
use osjitter.Ptp.Clock.{int64, tai_off_ns, ts2ns, ts2ns_tai, pct2ns, pct2ns_tai, Reading, reading}

add_pos : (a b : ℕ) → pos a +ℤ pos b ≡ pos (a + b)
unfolding ◌+ℤ◌
add_pos a b = ground arith

mul_pos : (a b : ℕ) → pos a *ℤ pos b ≡ pos (a * b)
unfolding ◌*ℤ◌
mul_pos a b = ground arith

int64_pos : (n : ℕ) → n < 2 ^ 63 → int64 (pos n) ≡ some (pos n)
int64_pos n h = ground arith

sub_pos : (a b : ℕ) → pos a -ℤ pos b ≡ sub_ℕ a b
unfolding ◌-ℤ◌
sub_pos a b = ground arith

int64-sub_ℕ : (a b : ℕ) → a < 2 ^ 63 → b < 2 ^ 63 → int64 (sub_ℕ a b) ≡ some (sub_ℕ a b)
int64-sub_ℕ a b ha hb = ground arith

-- the nanoseconds since 1970 of a time
abbrev pub ns_of : ℕ → ℕ → ℕ
ns_of s n = s * 1_000_000_000 + n

-- the same on the scale of the TAI
abbrev pub tai_ns_of : ℕ → ℕ → ℕ
tai_ns_of s n = ns_of s n + 37_000_000_000

-- seconds below 2 ^ 32, that is from 1970 to the year 2106
abbrev pub InRange : ℕ → ℕ → Type 0
InRange s n = (s < 2 ^ 32) × (n < 1_000_000_000)

module _ (s n : ℕ) (h : InRange s n) where
  sum_defined :
      (int64 (pos s *ℤ pos 1_000_000_000) >>= λ p. int64 (p +ℤ pos n)) ≡ some (pos (ns_of s n))
  sum_defined =
      rw
        (
          mul_pos s 1_000_000_000,
          int64_pos (s * 1_000_000_000) (omega (arith, h)),
          add_pos (s * 1_000_000_000) n,
        )
        (int64_pos (ns_of s n) (omega (arith, h)))

  tai_defined : int64 (pos (ns_of s n) +ℤ tai_off_ns) ≡ some (pos (tai_ns_of s n))
  tai_defined =
      rw (add_pos (ns_of s n) 37_000_000_000) (int64_pos (tai_ns_of s n) (omega (arith, h)))

  pub ts2ns_value : ts2ns (record { tv_sec = pos s; tv_nsec = pos n }) ≡ some (pos (ns_of s n))
  unfolding ts2ns
  ts2ns_value = sum_defined

  pub ts2ns_tai_value :
      ts2ns_tai (record { tv_sec = pos s; tv_nsec = pos n }) ≡ some (pos (tai_ns_of s n))
  unfolding ts2ns_tai
  ts2ns_tai_value = rw ts2ns_value tai_defined

  pub pct2ns_value : pct2ns (record { sec = pos s; nsec = n }) ≡ some (pos (ns_of s n))
  unfolding pct2ns
  pct2ns_value = sum_defined

  pub pct2ns_tai_value : pct2ns_tai (record { sec = pos s; nsec = n }) ≡ some (pos (tai_ns_of s n))
  unfolding pct2ns_tai
  pct2ns_tai_value = rw pct2ns_value tai_defined

-- the offset and the delay without bounds
abbrev pub ideal : ℕ → ℕ → ℕ → Reading
ideal a d c = record { off = sub_ℕ ((a + c) / 2) d; delay = sub_ℕ c a }

reading_value :
    (a d c : ℕ)
    → a < 2 ^ 62
    → d < 2 ^ 62
    → c < 2 ^ 62
    → reading (some (pos a)) (some (pos d)) (some (pos c)) ≡ some (ideal a d c)
unfolding reading
reading_value a d c ha hd hc =
    rw
      (
        sub_pos c a,
        int64-sub_ℕ c a (omega arith) (omega arith),
        add_pos a c,
        int64_pos (a + c) (omega arith),
        sub_pos ((a + c) / 2) d,
        int64-sub_ℕ ((a + c) / 2) d (omega arith) (omega arith),
      )
      refl

-- For three times from 1970 to 2106 no sum or product overflows: the offset is the middle of the two
-- times of the system, on the scale of the TAI, less the time of the device, and the delay is their
-- difference.
pub readings_defined :
    (s n s' n' s'' n'' : ℕ)
    → InRange s n
    → InRange s' n'
    → InRange s'' n''
    → let result = some (ideal (tai_ns_of s n) (ns_of s' n') (tai_ns_of s'' n'')) in
      (reading
          (ts2ns_tai (record { tv_sec = pos s; tv_nsec = pos n }))
          (ts2ns (record { tv_sec = pos s'; tv_nsec = pos n' }))
          (ts2ns_tai (record { tv_sec = pos s''; tv_nsec = pos n'' }))
        ≡ result)
      × (reading
            (pct2ns_tai (record { sec = pos s; nsec = n }))
            (pct2ns (record { sec = pos s'; nsec = n' }))
            (pct2ns_tai (record { sec = pos s''; nsec = n'' }))
          ≡ result)
readings_defined s n s' n' s'' n'' h h' h'' =
    let value =
      reading_value (tai_ns_of s n) (ns_of s' n') (tai_ns_of s'' n'') (omega (arith, h))
        (omega (arith, h')) (omega (arith, h'')) in
    (
      rw (ts2ns_tai_value s n h, ts2ns_value s' n' h', ts2ns_tai_value s'' n'' h'') value,
      rw (pct2ns_tai_value s n h, pct2ns_value s' n' h', pct2ns_tai_value s'' n'' h'') value,
    )
