-- ===== src/Pingpong/Spin/Room.antt =====
-- The array of deltas of a spinning thread of pingpong.c.
use osjitter.Prelude.{
  ℕ, ◌+◌, ◌/◌, ◌%◌, ◌≤◌, ◌<◌, ◌≡◌, ◌≢◌, ◌∙◌, ap, inl, inr, true, List, length, length-set,
  length-replicate, arith, ltb, leb, Bool-cases,
}
use mathlib.Core.Path.{subst}
use osjitter.Prelude.Words.{u32, sub64}
use osjitter.Pingpong.Worker.{Worker, done, spin_main_finalize, Locals, is_sender}
use osjitter.Pingpong.Worker.Room.{
  IsCounted, start-IsCounted, next-IsCounted_sent, next-taken-IsCounted, received-cases,
}
use osjitter.Pingpong.Worker.Finalize.{IsFinal, spin_main_finalize-IsFinal}
use osjitter.Pingpong.Rally.{Event}
use osjitter.Pingpong.Spin.{
  Pc, top, sending, storing, receiving, loaded, finished, faulted, Thread, move, System, first,
  second, tick, Reach, started, stepped,
}

-- what the iteration says where a thread stands; only an odd number of iterations leads to the fault,
-- and then thread 1 does not pass its last iteration
abbrev pub Stands : ℕ → ℕ → Pc → Locals → Type 0
Stands n init top l = n % 2 + init ≡ 2 → l.i < n
Stands n init sending l = (l.i < n) × (l.i % 2 ≡ init)
Stands n init (storing t) l = (l.i < n) × (l.i % 2 ≡ init)
Stands n init receiving l = (l.i < n) × (l.i % 2 ≢ init)
Stands n init (loaded v) l = (l.i < n) × (l.i % 2 ≢ init)
Stands n init finished l = (n ≤ l.i) × (n % 2 + init ≢ 2)
Stands n init faulted l = n % 2 + init ≡ 2

abbrev pub Counts : ℕ → ℕ → Thread → Type 0
Counts n init th =
    IsCounted init th.locals
    × (th.locals.i ≤ n)
    × (length th.locals.ds ≡ n / 2)
    × Stands n init th.pc th.locals

move-Counts :
    (n init now cell : ℕ) (pc : Pc) (l : Locals)
    → init ≤ 1
    → Counts n init (record { pc = pc; locals = l })
    → Counts n init (move n init now cell pc l).thread
unfolding move
move-Counts n init now cell top l h (c, le, len, st) = elim (Bool-cases (ltb l.i n)) [
  | inl more ↦ elim (Bool-cases (is_sender init l.i)) [
    | inl mine ↦ rw (more, mine) (c, le, len, ground (arith, more, mine))
    | inr other ↦ rw (more, other) (c, le, len, ground (arith, more, other))
  ]
  | inr over ↦
      let n-le : n ≤ l.i = ground (arith, over) in
      rw over (c, le, len, (n-le, λ e. omega (arith, st e)))
]
move-Counts n init now cell sending l h (c, le, len, st) = elim (Bool-cases (leb now l.tsc)) [
  | inl early ↦ rw early (c, le, len, st)
  | inr later ↦ rw later (c, le, len, st)
]
move-Counts n init now cell (storing t) l h (c, le, len, st) =
    (next-IsCounted_sent init l h st.1 c, omega arith, len, λ e. omega arith)
move-Counts n init now cell receiving l h (c, le, len, st) = elim (Bool-cases (ltb l.tsc cell)) [
  | inl new ↦ rw new (c, le, len, st)
  | inr old ↦ rw old (c, le, len, st)
]
move-Counts n init now cell (loaded v) l h (c, le, len, st) = elim (received-cases n now v l) [
  | inl (room, e) ↦ rw e (
    next-taken-IsCounted init now v l h st.1 c,
    omega arith,
    length-set l.ds l.j (u32 (sub64 now v)) ∙ len,
    λ e. omega arith,
  )
  | inr (full, e) ↦ rw e (c, le, len, omega arith)
]
move-Counts n init now cell finished l h c = c
move-Counts n init now cell faulted l h c = c

pub Reach-Counts :
    (n : ℕ) (s : System) (log : List Event)
    → Reach n s log
    → Counts n 0 s.thread0 × Counts n 1 s.thread1
Reach-Counts n _ _ (started now) =
    let size = length-replicate (n / 2) 0 in
    (
      (start-IsCounted n 0 (omega arith), omega arith, size, λ e. omega arith),
      (start-IsCounted n 1 (omega arith), omega arith, size, λ e. omega arith),
    )
Reach-Counts n _ _ (stepped {s} {log} r first) =
    let (h0, h1) = Reach-Counts n s log r in
    (move-Counts n 0 s.now s.cell0 s.thread0.pc s.thread0.locals (omega arith) h0, h1)
Reach-Counts n _ _ (stepped {s} {log} r second) =
    let (h0, h1) = Reach-Counts n s log r in
    (h0, move-Counts n 1 s.now s.cell1 s.thread1.pc s.thread1.locals (omega arith) h1)
Reach-Counts n _ _ (stepped {s} {log} r (tick d)) = Reach-Counts n s log r

-- With an even number of iterations no run stores behind the end of an array.
pub Reach-room :
    (n : ℕ) (s : System) (log : List Event)
    → n % 2 ≡ 0
    → Reach n s log
    → (s.thread0.pc ≢ faulted) × (s.thread1.pc ≢ faulted)
Reach-room n s log even r =
    let ((_, _, _, h0), (_, _, _, h1)) = Reach-Counts n s log r in
    (
      λ e. let f = subst (λ pc. Stands n 0 pc s.thread0.locals) e h0 in omega arith,
      λ e. let f = subst (λ pc. Stands n 1 pc s.thread1.locals) e h1 in omega arith,
    )

-- With an odd number of iterations thread 1 finishes in no run: it has one delta more to store than
-- its array holds.
pub Reach-odd :
    (n : ℕ) (s : System) (log : List Event) → n % 2 ≡ 1 → Reach n s log → s.thread1.pc ≢ finished
Reach-odd n s log odd r e =
    let (h0, (_, _, _, h1)) = Reach-Counts n s log r in
    let f = subst (λ pc. Stands n 1 pc s.thread1.locals) e h1 in absurd (f.1 (omega arith))

finished-IsFinal :
    (n init : ℕ) (th : Thread) (x : Worker)
    → n % 2 ≡ 0
    → init ≤ 1
    → x.n ≡ n
    → Counts n init th
    → th.pc ≡ finished
    → (y : Worker) × (spin_main_finalize true x th.locals.ds th.locals.j ≡ done y)
      × IsFinal th.locals.ds (n / 2) y
finished-IsFinal n init th x even h same (c, le, len, st) e =
    let at_end = subst (λ pc. Stands n init pc th.locals) e st in
    let j-eq : th.locals.j ≡ n / 2 = omega (arith, at_end) in
    let x-eq : x.n / 2 ≡ n / 2 = ap (λ m. m / 2) same in
    let (y, ends, final) =
      spin_main_finalize-IsFinal x th.locals.ds th.locals.j (omega arith) (omega arith) in
    (y, ends, subst (λ j. IsFinal th.locals.ds j y) j-eq final)

-- With an even number n of iterations, in a state of a run in which both threads have finished, each
-- passes the assertion and, given memory, reports n / 2 deltas, in the order of their recording and
-- sorted.
pub Reach-IsFinal :
    (n : ℕ) (s : System) (log : List Event) (x0 x1 : Worker)
    → n % 2 ≡ 0
    → x0.n ≡ n
    → x1.n ≡ n
    → Reach n s log
    → s.thread0.pc ≡ finished
    → s.thread1.pc ≡ finished
    → ((y : Worker) × (spin_main_finalize true x0 s.thread0.locals.ds s.thread0.locals.j ≡ done y)
        × IsFinal s.thread0.locals.ds (n / 2) y)
      × ((y : Worker) × (spin_main_finalize true x1 s.thread1.locals.ds s.thread1.locals.j ≡ done y)
          × IsFinal s.thread1.locals.ds (n / 2) y)
Reach-IsFinal n s log x0 x1 even e0 e1 r f0 f1 =
    let (h0, h1) = Reach-Counts n s log r in
    (
      finished-IsFinal n 0 s.thread0 x0 even (omega arith) e0 h0 f0,
      finished-IsFinal n 1 s.thread1 x1 even (omega arith) e1 h1 f1,
    )
