-- ===== src/Ptp/Truth.antt =====
-- The offsets that `read_clock_offset`, `read_ptp_offset` and `read_ptp_offset_extended` print, and the
-- true offset of the device's clock.
use Prim.Native.Nat.{zero, suc}
use osjitter.Prelude.{
  ℕ, ◌+◌, ◌*◌, ◌^◌, ◌<◌, ◌≡◌, refl, ap, List, Option, none, some, get_elem?, length, arith,
}
use osjitter.Prelude.Int.{ℤ, ◌-ℤ◌, ◌≤ℤ◌}
use osjitter.Prelude.Options.{◌>>=◌}
use osjitter.Ptp.Clock.{
  Timespec, PtpClockTime, ts2ns, ts2ns_tai, pct2ns, pct2ns_tai, Reading, reading, fd_to_clockid,
}
use osjitter.Ptp.Error.{IsWithin, IsSmall, exact, reading-exact, reading-IsWithin}
use osjitter.Ptp.Offsets.{
  Row, row, returned, Clocks, clock_realtime, read_clock_offset, PtpSysOffset, sample, sc_delay,
  read_ptp_offset, PtpSysOffsetExtended, sample_extended, read_ptp_offset_extended,
}
use osjitter.Ptp.Samples.{rows, read_ptp_offset-rows, read_ptp_offset_extended-rows}
use osjitter.Ptp.Rounds.{Ends, read_clock_offset-rows}

-- Of three times, converted to nanoseconds, two are the system's, a and c, and one the device's, d,
-- which was read when the system's clock showed x. None is beyond 2 ^ 62.
abbrev pub IsTaken : Option ℤ → Option ℤ → Option ℤ → ℤ → ℤ → ℤ → ℤ → Type 0
IsTaken before device after a d c x =
    (before ≡ some a)
    × (device ≡ some d)
    × (after ≡ some c)
    × IsSmall a
    × IsSmall d
    × IsSmall c
    × (a ≤ℤ x)
    × (x ≤ℤ c)

reading_taken :
    {before device after : Option ℤ} (a d c x : ℤ)
    → IsTaken before device after a d c x
    → reading before device after ≡ some (exact a d c)
reading_taken a d c x (e0, e1, e2, ha, hd, hc, lo, hi) =
    rw (e0, e1, e2) (reading-exact a d c ha hd hc)

exact-IsWithin :
    {before device after : Option ℤ} (a d c x : ℤ)
    → IsTaken before device after a d c x
    → IsWithin (x -ℤ d) (exact a d c)
exact-IsWithin a d c x (e0, e1, e2, ha, hd, hc, lo, hi) =
    reading-IsWithin a d c x lo hi (reading-exact a d c ha hd hc)

-- `n` rows, numbered from 1, and the offset of the k-th is `offset k` up to half of its delay.
abbrev pub Shows : (ℕ → ℤ) → Option ℕ → ℕ → List Row → Type 0
Shows offset syscall n rs =
    (length rs ≡ n)
    × ((k : ℕ)
        → k < n
        → (r : Reading) × (get_elem? rs k ≡ some (row (k + 1) syscall r)) × IsWithin (offset k) r)

length-rows : (f : ℕ → Reading) (syscall : Option ℕ) (n k : ℕ) → length (rows f syscall n k) ≡ n
length-rows f syscall zero k = refl
length-rows f syscall (suc n) k = ap suc (length-rows f syscall n (k + 1))

get_elem?-rows :
    (f : ℕ → Reading) (syscall : Option ℕ) (n i k j : ℕ)
    → k < n
    → j ≡ i + k
    → get_elem? (rows f syscall n i) k ≡ some (row (j + 1) syscall (f j))
get_elem?-rows f syscall zero i k j lt e = absurd (omega arith)
get_elem?-rows f syscall (suc n) i zero j lt e = let same : j ≡ i = omega arith in rw same refl
get_elem?-rows f syscall (suc n) i (suc k) j lt e =
    get_elem?-rows f syscall n (i + 1) k j (omega arith) (omega arith)

rows-Shows :
    (f : ℕ → Reading) (offset : ℕ → ℤ) (syscall : Option ℕ) (n : ℕ)
    → ((k : ℕ) → k < n → IsWithin (offset k) (f k))
    → Shows offset syscall n (rows f syscall n 0)
rows-Shows f offset syscall n h = (
  length-rows f syscall n 0,
  λ k lt. (f k, get_elem?-rows f syscall n 0 k k lt (omega arith), h k lt),
)

-- If the ioctl fills an array in which the system's clock and the device's alternate, and the device
-- was read at the time x k of the system between the two times of the k-th sample, then
-- `read_ptp_offset` returns 0 and prints a row for each of the samples, with the offset x k less the
-- device's time, up to half of its delay and half a nanosecond.
pub read_ptp_offset-Shows :
    (mult shift b e : ℕ) (pso : PtpSysOffset) (a d x : ℕ → ℤ)
    → pso.n_samples < 2 ^ 31
    → ((k : ℕ)
        → k < pso.n_samples
        → IsTaken
            (get_elem? pso.ts (2 * k) >>= pct2ns_tai)
            (get_elem? pso.ts (2 * k + 1) >>= pct2ns)
            (get_elem? pso.ts (2 * k + 2) >>= pct2ns_tai)
            (a k)
            (d k)
            (a (k + 1))
            (x k))
    → (rs : List Row) × (read_ptp_offset mult shift b e (some pso) ≡ returned rs 0)
      × Shows (λ k. x k -ℤ d k) (sc_delay mult shift b e) pso.n_samples rs
read_ptp_offset-Shows mult shift b e pso a d x small h =
    let f = λ (k : ℕ). exact (a k) (d k) (a (k + 1)) in
    let syscall = sc_delay mult shift b e in
    (
      rows f syscall pso.n_samples 0,
      read_ptp_offset-rows mult shift b e pso f small
          (λ k lt. unfold sample in reading_taken (a k) (d k) (a (k + 1)) (x k) (h k lt)),
      rows-Shows f (λ k. x k -ℤ d k) syscall pso.n_samples
          λ k lt. exact-IsWithin (a k) (d k) (a (k + 1)) (x k) (h k lt),
    )

-- If the ioctl fills an array of triples, the system's clock, the device's, and the system's again,
-- and the device was read at the time x k between the two times of the k-th triple, then
-- `read_ptp_offset_extended` returns 0 and prints a row for each triple, in the same way.
pub read_ptp_offset_extended-Shows :
    (mult shift b e : ℕ) (psoe : PtpSysOffsetExtended) (a d c x : ℕ → ℤ)
    → ((k : ℕ)
        → k < psoe.n_samples
        → (t0 t1 t2 : PtpClockTime) × (get_elem? psoe.ts k ≡ some (t0, t1, t2))
          × IsTaken (pct2ns_tai t0) (pct2ns t1) (pct2ns_tai t2) (a k) (d k) (c k) (x k))
    → (rs : List Row) × (read_ptp_offset_extended mult shift b e (some psoe) ≡ returned rs 0)
      × Shows (λ k. x k -ℤ d k) (sc_delay mult shift b e) psoe.n_samples rs
read_ptp_offset_extended-Shows mult shift b e psoe a d c x h =
    let f = λ (k : ℕ). exact (a k) (d k) (c k) in
    let syscall = sc_delay mult shift b e in
    (
      rows f syscall psoe.n_samples 0,
      read_ptp_offset_extended-rows mult shift b e psoe f (λ k lt.
          let (t0, t1, t2, at, taken) = h k lt in
          unfold sample_extended in rw at (reading_taken (a k) (d k) (c k) (x k) taken)),
      rows-Shows f (λ k. x k -ℤ d k) syscall psoe.n_samples
          λ k lt.
            let (t0, t1, t2, at, taken) = h k lt in exact-IsWithin (a k) (d k) (c k) (x k) taken,
    )

-- Let the calls of the rounds before the m-th succeed, and the device be read at the time x k between
-- the two times of the k-th round. Then `read_clock_offset` prints m rows with the offset x k less the
-- device's time, up to half of its delay and half a nanosecond; it returns 0 if m is 5, and 1 if a call
-- of the m-th of the five rounds fails.
pub read_clock_offset-Shows :
    (gettime : Clocks) (fd m ret : ℕ) (a d c x : ℕ → ℤ)
    → ((k : ℕ)
        → k < m
        → (t0 t1 t2 : Timespec) × (gettime (3 * k) clock_realtime ≡ some t0)
          × (gettime (3 * k + 1) (fd_to_clockid fd) ≡ some t1)
          × (gettime (3 * k + 2) clock_realtime ≡ some t2)
          × IsTaken (ts2ns_tai t0) (ts2ns t1) (ts2ns_tai t2) (a k) (d k) (c k) (x k))
    → Ends gettime (fd_to_clockid fd) 5 m ret
    → (rs : List Row) × (read_clock_offset gettime fd ≡ returned rs ret)
      × Shows (λ k. x k -ℤ d k) none m rs
read_clock_offset-Shows gettime fd m ret a d c x h ends =
    let f = λ (k : ℕ). exact (a k) (d k) (c k) in
    (
      rows f none m 0,
      read_clock_offset-rows gettime fd m ret f
          (λ k lt.
            let (t0, t1, t2, r0, r1, r2, taken) = h k lt in
            (t0, t1, t2, r0, r1, r2, reading_taken (a k) (d k) (c k) (x k) taken))
          ends,
      rows-Shows f (λ k. x k -ℤ d k) none m
          λ k lt.
            let (t0, t1, t2, r0, r1, r2, taken) = h k lt in
            exact-IsWithin (a k) (d k) (c k) (x k) taken,
    )
