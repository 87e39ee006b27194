-- ===== src/Ptp/Examples.antt =====
-- The theorems on ptp-clock-offset.c at concrete inputs.
use Prim.Native.Nat.{zero, suc}
use osjitter.Prelude.{
  ℕ, ◌+◌, ◌-◌, ◌*◌, ◌^◌, ◌≤◌, ◌<◌, ◌≡◌, refl, true, false, inl, inr, List, [], ◌∷◌, ◌++◌, Option,
  none, some, get_elem?, length, arith,
}
use osjitter.Prelude.Text.{codes}
use osjitter.Prelude.Int.{ℤ, pos, neg_part, ◌-ℤ◌}
use osjitter.Prelude.Options.{◌>>=◌}
use osjitter.Util.Khz
use osjitter.Ptp.Clock.{
  Timespec, PtpClockTime, ts2ns, ts2ns_tai, pct2ns, pct2ns_tai, reading, fd_to_clockid,
}
use osjitter.Ptp.Range.{ideal, ns_of, tai_ns_of, readings_defined}
use osjitter.Ptp.Offsets.{
  Row, returned, Clocks, clock_realtime, read_clock_offset, PtpSysOffset, sc_delay, read_ptp_offset,
}
use osjitter.Ptp.Truth.{IsTaken, Shows, read_ptp_offset-Shows, read_clock_offset-Shows}
use osjitter.Ptp.Device.{Ethtool, found, get_ptp_dev, Answers, show_int}

-- The device is 37 s ahead of the system, on the scale of the TAI, and each read takes a second.
abbrev at : ℕ → PtpClockTime
at s = record { sec = pos s; nsec = 0 }

abbrev one_sample : PtpSysOffset
one_sample = record { n_samples = 1; ts = at 1000 ∷ at 1038 ∷ at 1002 ∷ [] }

abbrev seconds : ℕ → ℤ
seconds s = pos (s * 1_000_000_000)

abbrev system_times : ℕ → ℤ
system_times zero = seconds 1037
system_times (suc k) = seconds 1039

one-IsTaken :
    (k : ℕ)
    → k < 1
    → IsTaken
        (get_elem? one_sample.ts (2 * k) >>= pct2ns_tai)
        (get_elem? one_sample.ts (2 * k + 1) >>= pct2ns)
        (get_elem? one_sample.ts (2 * k + 2) >>= pct2ns_tai)
        (system_times k)
        (seconds 1038)
        (system_times (k + 1))
        (seconds 1038)
unfolding pct2ns_tai pct2ns osjitter.Prelude.Int.◌*ℤ◌ osjitter.Prelude.Int.◌+ℤ◌
one-IsTaken zero lt = (
  refl,
  refl,
  refl,
  (omega arith, omega arith),
  (omega arith, omega arith),
  (omega arith, omega arith),
  omega arith,
  omega arith,
)
one-IsTaken (suc k) lt = absurd (omega arith)

read_ptp_offset-Shows_example :
    (rs : List Row) × (read_ptp_offset 1 0 0 0 (some one_sample) ≡ returned rs 0)
    × Shows (λ k. seconds 1038 -ℤ seconds 1038) (sc_delay 1 0 0 0) 1 rs
read_ptp_offset-Shows_example =
    read_ptp_offset-Shows 1 0 0 0 one_sample system_times (λ k. seconds 1038) (λ k. seconds 1038)
      (omega arith) one-IsTaken

-- One round succeeds, then the device is gone.
abbrev time : ℕ → Timespec
time s = record { tv_sec = pos s; tv_nsec = pos 0 }

abbrev clocks : Clocks
clocks zero id = some (time 1000)
clocks (suc zero) id = some (time 1038)
clocks (suc (suc zero)) id = some (time 1002)
clocks (suc (suc (suc n))) id = none

one_round :
    (k : ℕ)
    → k < 1
    → (t0 t1 t2 : Timespec) × (clocks (3 * k) clock_realtime ≡ some t0)
      × (clocks (3 * k + 1) (fd_to_clockid 3) ≡ some t1)
      × (clocks (3 * k + 2) clock_realtime ≡ some t2)
      × IsTaken
          (ts2ns_tai t0)
          (ts2ns t1)
          (ts2ns_tai t2)
          (seconds 1037)
          (seconds 1038)
          (seconds 1039)
          (seconds 1038)
unfolding ts2ns_tai ts2ns osjitter.Prelude.Int.◌*ℤ◌ osjitter.Prelude.Int.◌+ℤ◌
one_round zero lt = (
  time 1000,
  time 1038,
  time 1002,
  refl,
  refl,
  refl,
  (
    refl,
    refl,
    refl,
    (omega arith, omega arith),
    (omega arith, omega arith),
    (omega arith, omega arith),
    omega arith,
    omega arith,
  ),
)
one_round (suc k) lt = absurd (omega arith)

read_clock_offset-Shows_example :
    (rs : List Row) × (read_clock_offset clocks 3 ≡ returned rs 1)
    × Shows (λ k. seconds 1038 -ℤ seconds 1038) none 1 rs
read_clock_offset-Shows_example =
    read_clock_offset-Shows clocks 3 1 1 (λ k. seconds 1037) (λ k. seconds 1038) (λ k. seconds 1039)
      (λ k. seconds 1038) one_round (inr (omega arith, inl refl, refl))

readings_defined_example :
    let result =
      some (ideal (tai_ns_of 1600000000 1) (ns_of 1600000037 3) (tai_ns_of 1600000000 5)) in
    (reading
        (ts2ns_tai (record { tv_sec = pos 1600000000; tv_nsec = pos 1 }))
        (ts2ns (record { tv_sec = pos 1600000037; tv_nsec = pos 3 }))
        (ts2ns_tai (record { tv_sec = pos 1600000000; tv_nsec = pos 5 }))
      ≡ result)
    × (reading
          (pct2ns_tai (record { sec = pos 1600000000; nsec = 1 }))
          (pct2ns (record { sec = pos 1600000037; nsec = 3 }))
          (pct2ns_tai (record { sec = pos 1600000000; nsec = 5 }))
        ≡ result)
readings_defined_example =
    readings_defined 1600000000 1 1600000037 3 1600000000 5 (omega arith, omega arith)
      (omega arith, omega arith) (omega arith, omega arith)

abbrev solarflare : Ethtool
solarflare = record { ts_info = some (pos 12); allocates = true; drvinfo = some (codes "sfc") }

get_ptp_dev_run :
    get_ptp_dev solarflare (codes "eth0") (codes "eth0") false
    ≡ found (pos 0) (codes "/dev/ptp12") true
unfolding get_ptp_dev show_int
get_ptp_dev_run = refl

abbrev answers : Answers
answers = record {
  socket = some 3;
  ethtool = solarflare;
  open_dev = λ dev. some 4;
  gettime = clocks;
  offset = some one_sample;
  extended = none;
  precise = none;
  sfc = some (record { sec = pos 1; nsec = pos 5 });
  tsc = λ n. n * 1000;
}
