-- ===== src/Ptp/Clock.antt =====
-- Times and clock ids of ptp-clock-offset.c: `struct timespec`, `struct ptp_clock_time`,
-- `struct sfc_ts`, their conversions to nanoseconds, and FD_TO_CLOCKID. A signed sum or product that
-- leaves `int64_t` has no defined value, which is `none`.
use osjitter.Prelude.{ℕ, ◌+◌, ◌-◌, ◌*◌, ◌/◌, ◌%◌, ◌^◌, Bool, Option, none, some, ltb, if◌then◌else◌}
use osjitter.Prelude.Int.{ℤ, pos, negsuc, ◌+ℤ◌, ◌-ℤ◌, ◌*ℤ◌}
use osjitter.Prelude.Words.{u32_mod, u64_mod}
use osjitter.Prelude.Options.{◌>>=◌}

abbrev fits : ℤ → Bool
fits (pos n) = ltb n (2 ^ 63)
fits (negsuc n) = ltb n (2 ^ 63)

-- the result of signed arithmetic in 64 bits
abbrev pub int64 : ℤ → Option ℤ
int64 a = if fits a then some a else none

pub record Timespec : Type 0 where
  pub tv_sec : ℤ
  pub tv_nsec : ℤ

-- `nsec` is a `__u32`.
pub record PtpClockTime : Type 0 where
  pub sec : ℤ
  pub nsec : ℕ

pub record SfcTs : Type 0 where
  pub sec : ℤ
  pub nsec : ℤ

abbrev pub tai_off_ns : ℤ
tai_off_ns = pos 37_000_000_000

unfoldable pub ts2ns : Timespec → Option ℤ
ts2ns ts = do s ← int64 (ts.tv_sec *ℤ pos 1_000_000_000); int64 (s +ℤ ts.tv_nsec)

unfoldable pub ts2ns_tai : Timespec → Option ℤ
ts2ns_tai ts = do ns ← ts2ns ts; int64 (ns +ℤ tai_off_ns)

unfoldable pub pct2ns : PtpClockTime → Option ℤ
pct2ns ptc = do s ← int64 (ptc.sec *ℤ pos 1_000_000_000); int64 (s +ℤ pos ptc.nsec)

unfoldable pub pct2ns_tai : PtpClockTime → Option ℤ
pct2ns_tai ptc = do ns ← pct2ns ptc; int64 (ns +ℤ tai_off_ns)

-- the casts of 64 bits to `uint64_t` and back
abbrev pub to_u64 : ℤ → ℕ
to_u64 (pos n) = n % u64_mod
to_u64 (negsuc n) = u64_mod - 1 - n % u64_mod

abbrev pub of_u64 : ℕ → ℤ
of_u64 n = if ltb n (2 ^ 63) then pos n else negsuc (u64_mod - 1 - n)

-- Here the product is one of `unsigned long`, which wraps.
unfoldable pub sfcts2ns : SfcTs → Option ℤ
sfcts2ns ts = int64 (of_u64 (to_u64 ts.sec * 1_000_000_000 % u64_mod) +ℤ ts.nsec)

-- The quotient of C is rounded towards zero.
abbrev pub half : ℤ → ℤ
half (pos n) = pos (n / 2)
half (negsuc n) = if ltb n 1 then pos 0 else negsuc ((n + 1) / 2 - 1)

-- What the three loops print: `delay` and `off`, from the time of the system before and after the
-- device was read, and the device's time.
pub record Reading : Type 0 where
  pub off : ℤ
  pub delay : ℤ

unfoldable pub reading : Option ℤ → Option ℤ → Option ℤ → Option Reading
reading before device after = do
  a ← before
  c ← after
  delay ← int64 (c -ℤ a)
  both ← int64 (a +ℤ c)
  d ← device
  off ← int64 (half both -ℤ d)
  some (record { off = off; delay = delay })

-- `clockid_t` is an `int`. A descriptor is not negative: `~fd` is 2 ^ 32 - 1 - fd as `unsigned int`,
-- and the shift leaves the low three bits for CLOCKFD.
unfoldable pub fd_to_clockid : ℕ → ℤ
fd_to_clockid fd =
    let w = (u32_mod - 1 - fd) * 8 % u32_mod + 3 in
    if ltb w (2 ^ 31) then pos w else negsuc (u32_mod - 1 - w)
