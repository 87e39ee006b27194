-- ===== src/Ptp/Samples.antt =====
-- What the loops of `Ptp.Offsets` print: a row for each sample, with the true offset.
use Prim.Native.Nat.{zero, suc}
use osjitter.Prelude.{
  ℕ, ◌+◌, ◌*◌, ◌^◌, ◌≤◌, ◌<◌, ◌≡◌, refl, true, List, [], ◌∷◌, Option, some, ltb, arith, lt→ltb,
}
use osjitter.Prelude.Words.{u32}
use osjitter.Ptp.Clock.{PtpClockTime, Reading}
use osjitter.Ptp.Offsets.{
  Row, row, Printed, returned, print_reading, PtpSysOffset, sample, ptp_loop, sc_delay,
  read_ptp_offset, PtpSysOffsetExtended, sample_extended, extended_loop, read_ptp_offset_extended,
}

-- the rows of `n` readings from the k-th on
abbrev pub rows : (ℕ → Reading) → Option ℕ → ℕ → ℕ → List Row
rows f syscall zero k = []
rows f syscall (suc n) k = row (k + 1) syscall (f k) ∷ rows f syscall n (k + 1)

pub print_reading-some :
    (number : ℕ) (syscall : Option ℕ) {m : Option Reading} {r : Reading} {rs : List Row} {ret : ℕ}
    (rest : Printed)
    → m ≡ some r
    → rest ≡ returned rs ret
    → print_reading number syscall m rest ≡ returned (row number syscall r ∷ rs) ret
print_reading-some number syscall rest h k = rw (h, k) refl

extended_loop-rows :
    (syscall : Option ℕ) (ts : List (PtpClockTime × PtpClockTime × PtpClockTime)) (f : ℕ → Reading)
    (n i : ℕ)
    → ((k : ℕ) → i ≤ k → k < i + n → sample_extended ts k ≡ some (f k))
    → extended_loop syscall ts n i ≡ returned (rows f syscall n i) 0
unfolding extended_loop
extended_loop-rows syscall ts f zero i h = refl
extended_loop-rows syscall ts f (suc n) i h =
    print_reading-some (i + 1) syscall (extended_loop syscall ts n (i + 1))
      (h i (omega arith) (omega arith))
      (extended_loop-rows syscall ts f n (i + 1) λ k lo hi. h k (omega arith) (omega arith))

ptp_loop-rows :
    (syscall : Option ℕ) (ts : List PtpClockTime) (f : ℕ → Reading) (m n fuel k : ℕ)
    → m ≡ 2 * (k + n)
    → n < fuel
    → ((j : ℕ) → k ≤ j → j < k + n → sample ts (2 * j) ≡ some (f j))
    → ptp_loop syscall ts m fuel (2 * k) (k + 1) ≡ returned (rows f syscall n k) 0
unfolding ptp_loop
ptp_loop-rows syscall ts f m n zero k e lt h = absurd (omega arith)
ptp_loop-rows syscall ts f m zero (suc fuel) k e lt h = ground arith
ptp_loop-rows syscall ts f m (suc n) (suc fuel) k e lt h =
    let rest =
      ptp_loop-rows syscall ts f m n fuel (k + 1) (omega arith) (omega arith)
        λ j lo hi. h j (omega arith) (omega arith) in
    let goes : ltb (2 * k) m ≡ true = lt→ltb (2 * k) m (omega arith) in
    let double : 2 * (k + 1) ≡ 2 * k + 2 = omega arith in
    rw goes (
      print_reading-some (k + 1) syscall (ptp_loop syscall ts m fuel (2 * k + 2) (k + 1 + 1))
        (h k (omega arith) (omega arith)) (rw (← double) rest))

pub read_ptp_offset-rows :
    (mult shift b e : ℕ) (pso : PtpSysOffset) (f : ℕ → Reading)
    → pso.n_samples < 2 ^ 31
    → ((k : ℕ) → k < pso.n_samples → sample pso.ts (2 * k) ≡ some (f k))
    → read_ptp_offset mult shift b e (some pso)
      ≡ returned (rows f (sc_delay mult shift b e) pso.n_samples 0) 0
unfolding read_ptp_offset
read_ptp_offset-rows mult shift b e pso f small h =
    ptp_loop-rows (sc_delay mult shift b e) pso.ts f (u32 (pso.n_samples * 2)) pso.n_samples
      (pso.n_samples + 1) 0 (omega arith) (omega arith) λ j lo hi. h j (omega arith)

pub read_ptp_offset_extended-rows :
    (mult shift b e : ℕ) (psoe : PtpSysOffsetExtended) (f : ℕ → Reading)
    → ((k : ℕ) → k < psoe.n_samples → sample_extended psoe.ts k ≡ some (f k))
    → read_ptp_offset_extended mult shift b e (some psoe)
      ≡ returned (rows f (sc_delay mult shift b e) psoe.n_samples 0) 0
unfolding read_ptp_offset_extended
read_ptp_offset_extended-rows mult shift b e psoe f h =
    extended_loop-rows (sc_delay mult shift b e) psoe.ts f psoe.n_samples 0
      λ j lo hi. h j (omega arith)
