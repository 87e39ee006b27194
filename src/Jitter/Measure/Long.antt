-- ===== src/Jitter/Measure/Long.antt =====
-- Long interruptions in `worker_main` of osjitter.c: the unrolled round has a 64-bit difference, the
-- loop a 32-bit one.
use osjitter.Prelude.{ℕ, ◌+◌, ◌-◌, ◌%◌, ◌^◌, ◌≤◌, ◌<◌, ◌≡◌, refl, true, false, set, arith, ltb}
use osjitter.Prelude.Words.{u32, sub64}
use osjitter.Jitter.Measure.{Loop, uint32_max, saturate, first_round, loop_round}

-- In the loop a round of 2 ^ 32 ticks or more, whose length modulo 2 ^ 32 is not above the
-- threshold, is not counted: the account stays as it was. The unrolled round counts it, adds all
-- of it to the sum, and records it as UINT32_MAX.
pub long_round :
    (n thresh t : ℕ) (s : Loop)
    → s.tsc + 2 ^ 32 ≤ t
    → t < 2 ^ 64
    → (t - s.tsc) % 2 ^ 32 ≤ thresh
    → thresh < 2 ^ 32
    → s.i < n
    → s.i + 1 < 2 ^ 64
    → ((loop_round n thresh t s).i ≡ s.i)
      × ((loop_round n thresh t s).ds ≡ s.ds)
      × ((loop_round n thresh t s).total ≡ s.total)
      × ((first_round n thresh t s).i ≡ s.i + 1)
      × ((first_round n thresh t s).ds ≡ set s.ds s.i uint32_max)
      × ((first_round n thresh t s).total ≡ (s.total + (t - s.tsc)) % 2 ^ 64)
unfolding loop_round first_round
long_round n thresh t s long fits short small room more =
    let gap : sub64 t s.tsc ≡ t - s.tsc = omega arith in
    let above : ltb thresh (t - s.tsc) ≡ true = ground arith in
    let below : ltb thresh (u32 (t - s.tsc)) ≡ false = ground arith in
    let full : saturate (t - s.tsc) ≡ uint32_max = ground arith in
    rw (gap, above, below, full) (refl, refl, refl, ground arith, ground arith, refl)
