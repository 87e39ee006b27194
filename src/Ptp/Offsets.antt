-- ===== src/Ptp/Offsets.antt =====
-- The ways to measure in ptp-clock-offset.c: `read_clock_offset`, `read_ptp_offset`,
-- `read_ptp_offset_extended`, `read_ptp_offset_precise` and `read_sfc_offset`. What the system calls
-- return and the readings of the time-stamp counter are arguments.
use Prim.Native.Nat.{zero, suc}
use osjitter.Prelude.{ℕ, ◌+◌, ◌*◌, List, [], ◌∷◌, Option, none, some, get_elem?, ltb, if◌then◌else◌}
use osjitter.Prelude.Int.{ℤ, pos, ◌-ℤ◌}
use osjitter.Prelude.Words.{u32, sub64}
use osjitter.Prelude.Options.{◌>>=◌}
use osjitter.Util.Scale.{mul_u64_u32_shr}
use osjitter.Ptp.Clock.{
  int64, Timespec, PtpClockTime, SfcTs, ts2ns, ts2ns_tai, pct2ns, pct2ns_tai, sfcts2ns, Reading,
  reading, fd_to_clockid,
}

-- A line of the output. `number` is 0 where a single line is printed, `delay` and `syscall` are missing
-- where none is.
pub record Row : Type 0 where
  pub number : ℕ
  pub off : ℤ
  pub delay : Option ℤ
  pub syscall : Option ℕ

abbrev pub row : ℕ → Option ℕ → Reading → Row
row number syscall r = record {
  number = number;
  off = r.off;
  delay = some r.delay;
  syscall = syscall;
}

-- What a function has printed and returned. `undefined` is a signed overflow, or a read behind the
-- end of an array.
pub data Printed : Type 0 where
  undefined : Printed
  returned : List Row → ℕ → Printed

abbrev pub print : Row → Printed → Printed
print r undefined = undefined
print r (returned rows ret) = returned (r ∷ rows) ret

abbrev pub print_reading : ℕ → Option ℕ → Option Reading → Printed → Printed
print_reading number syscall none rest = undefined
print_reading number syscall (some r) rest = print (row number syscall r) rest

-- `clock_gettime`: the number of calls before this one and the clock, with `none` for -1
abbrev pub Clocks : Type 0
Clocks = ℕ → ℤ → Option Timespec

abbrev pub clock_realtime : ℤ
clock_realtime = pos 0

-- One round: all three clocks are read before the first test.
unfoldable pub clock_round :
    ℕ → Option Timespec → Option Timespec → Option Timespec → Printed → Printed
clock_round i none t1 t2 rest = returned [] 1
clock_round i (some t0) none t2 rest = returned [] 1
clock_round i (some t0) (some t1) none rest = returned [] 1
clock_round i (some t0) (some t1) (some t2) rest =
    print_reading (i + 1) none (reading (ts2ns_tai t0) (ts2ns t1) (ts2ns_tai t2)) rest

-- `n` rounds from round `i` on
unfoldable pub clock_loop : Clocks → ℤ → ℕ → ℕ → Printed
unfolding clock_round
clock_loop gettime clk_id zero i = returned [] 0
clock_loop gettime clk_id (suc n) i =
    clock_round i (gettime (3 * i) clock_realtime) (gettime (3 * i + 1) clk_id)
      (gettime (3 * i + 2) clock_realtime) (clock_loop gettime clk_id n (i + 1))

unfoldable pub read_clock_offset : Clocks → ℕ → Printed
read_clock_offset gettime fd = clock_loop gettime (fd_to_clockid fd) 5 0

-- `struct ptp_sys_offset` as the ioctl leaves it
pub record PtpSysOffset : Type 0 where
  pub n_samples : ℕ
  pub ts : List PtpClockTime

-- three times in turn from index `i` on
unfoldable pub sample : List PtpClockTime → ℕ → Option Reading
sample ts i =
    reading (get_elem? ts i >>= pct2ns_tai) (get_elem? ts (i + 1) >>= pct2ns)
      (get_elem? ts (i + 2) >>= pct2ns_tai)

-- `struct ptp_sys_offset_extended`
pub record PtpSysOffsetExtended : Type 0 where
  pub n_samples : ℕ
  pub ts : List (PtpClockTime × PtpClockTime × PtpClockTime)

unfoldable pub sample_extended :
    List (PtpClockTime × PtpClockTime × PtpClockTime) → ℕ → Option Reading
sample_extended ts i = do
  (t0, t1, t2) ← get_elem? ts i
  reading (pct2ns_tai t0) (pct2ns t1) (pct2ns_tai t2)

-- `struct ptp_sys_offset_precise`
pub record PtpSysOffsetPrecise : Type 0 where
  pub device : PtpClockTime
  pub sys_realtime : PtpClockTime

-- the loop on `n` rounds from `i` on, which goes up by one, for a bound of `n` more rounds
unfoldable pub extended_loop :
    Option ℕ → List (PtpClockTime × PtpClockTime × PtpClockTime) → ℕ → ℕ → Printed
unfolding sample_extended
extended_loop syscall ts zero i = returned [] 0
extended_loop syscall ts (suc n) i =
    print_reading (i + 1) syscall (sample_extended ts i) (extended_loop syscall ts n (i + 1))

-- The loop on fuel, for the bound `m`: i goes up by two, and stays in 32 bits since m is even.
unfoldable pub ptp_loop : Option ℕ → List PtpClockTime → ℕ → ℕ → ℕ → ℕ → Printed
unfolding sample
ptp_loop syscall ts m zero i k = undefined
ptp_loop syscall ts m (suc f) i k =
    let rest = ptp_loop syscall ts m f (i + 2) (k + 1) in
    if ltb i m then print_reading k syscall (sample ts i) rest else returned [] 0

-- The scaling factors, and the readings before and after the system call.
module _ (tsc_mult tsc_shift b e : ℕ) where
  unfoldable pub tsc2ns : ℕ → ℕ
  tsc2ns cyc = mul_u64_u32_shr cyc tsc_mult tsc_shift

  abbrev pub sc_delay : Option ℕ
  unfolding tsc2ns
  sc_delay = some (tsc2ns (sub64 e b))

  -- An ioctl that does not return 0 is `none`.
  unfoldable pub read_ptp_offset : Option PtpSysOffset → Printed
  unfolding ptp_loop
  read_ptp_offset none = returned [] 1
  read_ptp_offset (some pso) =
      ptp_loop sc_delay pso.ts (u32 (pso.n_samples * 2)) (pso.n_samples + 1) 0 1

  unfoldable pub read_ptp_offset_extended : Option PtpSysOffsetExtended → Printed
  unfolding extended_loop
  read_ptp_offset_extended none = returned [] 1
  read_ptp_offset_extended (some psoe) = extended_loop sc_delay psoe.ts psoe.n_samples 0

  abbrev print_offset : Option ℤ → Option ℤ → Printed
  print_offset none delay = undefined
  print_offset (some off) delay =
      returned (record { number = 0; off = off; delay = delay; syscall = sc_delay } ∷ []) 0

  unfoldable pub read_ptp_offset_precise : Option PtpSysOffsetPrecise → Printed
  read_ptp_offset_precise none = returned [] 1
  read_ptp_offset_precise (some psop) =
      print_offset (do s ← pct2ns_tai psop.sys_realtime; d ← pct2ns psop.device; int64 (s -ℤ d))
        (some (pos 0))

  unfoldable pub read_sfc_offset : Option SfcTs → Printed
  read_sfc_offset none = returned [] 1
  read_sfc_offset (some t) = print_offset (sfcts2ns t) none
