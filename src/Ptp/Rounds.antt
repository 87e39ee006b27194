-- ===== src/Ptp/Rounds.antt =====
-- The rounds of `read_clock_offset`, up to the first that fails.
use Prim.Native.Nat.{zero, suc}
use osjitter.Prelude.{
  ℕ, ◌+◌, ◌*◌, ◌≤◌, ◌<◌, ◌≡◌, ap, sym, ◌∙◌, ◌⊎◌, inl, inr, [], none, some, arith,
}
use mathlib.Core.Path.{subst}
use osjitter.Prelude.Int.{ℤ}
use osjitter.Ptp.Clock.{Timespec, ts2ns, ts2ns_tai, Reading, reading, fd_to_clockid}
use osjitter.Ptp.Offsets.{
  returned, Clocks, clock_realtime, clock_round, clock_loop, read_clock_offset,
}
use osjitter.Ptp.Samples.{rows, print_reading-some}

-- the round `i` of `read_clock_offset` has read all three clocks, and its offset has a value
abbrev pub Measures : Clocks → ℤ → ℕ → Reading → Type 0
Measures gettime clk_id i r =
    (t0 t1 t2 : Timespec) × (gettime (3 * i) clock_realtime ≡ some t0)
    × (gettime (3 * i + 1) clk_id ≡ some t1)
    × (gettime (3 * i + 2) clock_realtime ≡ some t2)
    × (reading (ts2ns_tai t0) (ts2ns t1) (ts2ns_tai t2) ≡ some r)

-- one of its calls has failed
abbrev pub Fails : Clocks → ℤ → ℕ → Type 0
Fails gettime clk_id i =
    (gettime (3 * i) clock_realtime ≡ none)
    ⊎ (gettime (3 * i + 1) clk_id ≡ none)
    ⊎ (gettime (3 * i + 2) clock_realtime ≡ none)

clock_loop-Fails :
    (gettime : Clocks) (clk_id : ℤ) (n i : ℕ)
    → Fails gettime clk_id i
    → clock_loop gettime clk_id (suc n) i ≡ returned [] 1
unfolding clock_loop clock_round
clock_loop-Fails gettime clk_id n i h = ground arith

-- All `n` rounds are good, or the m-th is the first to fail; and the return value.
abbrev pub Ends : Clocks → ℤ → ℕ → ℕ → ℕ → Type 0
Ends gettime clk_id last m ret =
    ((m ≡ last) × (ret ≡ 0)) ⊎ ((m < last) × Fails gettime clk_id m × (ret ≡ 1))

clock_loop-rows :
    (gettime : Clocks) (clk_id : ℤ) (f : ℕ → Reading) (n good i m ret : ℕ)
    → m ≡ i + good
    → ((j : ℕ) → i ≤ j → j < m → Measures gettime clk_id j (f j))
    → Ends gettime clk_id (i + n) m ret
    → clock_loop gettime clk_id n i ≡ returned (rows f none good i) ret
unfolding clock_loop clock_round
clock_loop-rows gettime clk_id f zero zero i m ret e h (inl (last, zero_)) =
    ap (returned []) (sym zero_)
clock_loop-rows gettime clk_id f (suc n) zero i m ret e h (inl (last, zero_)) = absurd (omega arith)
clock_loop-rows gettime clk_id f zero (suc good) i m ret e h (inl (last, zero_)) =
    absurd (omega arith)
clock_loop-rows gettime clk_id f zero good i m ret e h (inr (lt, fails, one)) = absurd (omega arith)
clock_loop-rows gettime clk_id f (suc n) zero i m ret e h (inr (lt, fails, one)) =
    let here : m ≡ i = omega arith in
    clock_loop-Fails gettime clk_id n i (subst (Fails gettime clk_id) here fails)
    ∙ ap (returned []) (sym one)
clock_loop-rows gettime clk_id f (suc n) (suc good) i m ret e h ends =
    let (t0, t1, t2, r0, r1, r2, value) = h i (omega arith) (omega arith) in
    let same : i + suc n ≡ i + 1 + n = omega arith in
    let ends' = subst (λ l. Ends gettime clk_id l m ret) same ends in
    let rest =
      clock_loop-rows gettime clk_id f n good (i + 1) m ret (omega arith)
        (λ j lo hi. h j (omega arith) hi) ends' in
    rw (r0, r1, r2)
      (print_reading-some (i + 1) none (clock_loop gettime clk_id n (i + 1)) value rest)

-- If the rounds before the m-th read all three clocks, with offsets that have values, then
-- `read_clock_offset` prints a row for each of them; it returns 0 if m is 5, and 1 if a call of the
-- m-th of the five rounds fails.
pub read_clock_offset-rows :
    (gettime : Clocks) (fd m ret : ℕ) (f : ℕ → Reading)
    → ((j : ℕ) → j < m → Measures gettime (fd_to_clockid fd) j (f j))
    → Ends gettime (fd_to_clockid fd) 5 m ret
    → read_clock_offset gettime fd ≡ returned (rows f none m 0) ret
unfolding read_clock_offset
read_clock_offset-rows gettime fd m ret f h ends =
    clock_loop-rows gettime (fd_to_clockid fd) f 5 m 0 m ret (omega arith) (λ j lo hi. h j hi) ends
