-- ===== src/Pingpong/Futex/Room.antt =====
-- The array of deltas of a thread of pingpong.c that shares futexes.
use osjitter.Prelude.{
  ℕ, ◌+◌, ◌/◌, ◌%◌, ◌≤◌, ◌<◌, ◌≡◌, ◌≢◌, ◌∙◌, ap, inl, inr, Bool, true, false, List, length,
  length-set, length-replicate, arith, ltb, leb, ◌==◌, Bool-cases,
}
use mathlib.Core.Path.{subst}
use osjitter.Prelude.Words.{u32, sub64}
use osjitter.Pingpong.Worker.{
  Answer, is_error, is_spurious, Worker, done, spin_main_finalize, Locals, is_sender, next,
}
use osjitter.Pingpong.Worker.Room.{
  IsCounted, start-IsCounted, next-IsCounted_sent, next-taken-IsCounted, received-cases,
}
use osjitter.Pingpong.Worker.Finalize.{IsFinal, spin_main_finalize-IsFinal}
use osjitter.Pingpong.Rally.{Event}
use osjitter.Pingpong.Futex.{
  Pc, top, locking, waiting, asleep, timing, storing, giving, waking_other, loading, loaded,
  unlocking, waking, finished, failed, faulted, aborted, Thread, Follicle, can_lock, can_unlock,
  move, wake, System, first, second, tick, Reach, started, stepped,
}

-- what the iteration says where a thread stands; only an odd number of iterations leads to the fault,
-- and then thread 1 does not pass its last iteration
abbrev Stands : ℕ → ℕ → Pc → Locals → Type 0
Stands n init timing l = (l.i < n) × (l.i % 2 ≡ init) × IsCounted init l
Stands n init (storing t) l = (l.i < n) × (l.i % 2 ≡ init) × IsCounted init l
Stands n init giving l = (l.i < n) × (l.i % 2 ≡ init) × IsCounted init l
Stands n init waking_other l = (l.i < n) × (l.i % 2 ≡ init) × IsCounted init l
Stands n init loading l = (l.i < n) × (l.i % 2 ≢ init) × IsCounted init l
Stands n init (loaded v) l = (l.i < n) × (l.i % 2 ≢ init) × IsCounted init l
Stands n init unlocking l = (l.i < n) × IsCounted init (next l) × (n % 2 + init ≡ 2 → l.i + 1 < n)
Stands n init waking l = (l.i < n) × IsCounted init (next l) × (n % 2 + init ≡ 2 → l.i + 1 < n)
Stands n init top l = (l.i ≤ n) × IsCounted init l × (n % 2 + init ≡ 2 → l.i < n)
Stands n init locking l = (l.i < n) × IsCounted init l
Stands n init waiting l = (l.i < n) × IsCounted init l
Stands n init asleep l = (l.i < n) × IsCounted init l
Stands n init finished l = (l.i ≡ n) × IsCounted init l × (n % 2 + init ≢ 2)
Stands n init faulted l = n % 2 + init ≡ 2
Stands n init failed l = Unit
Stands n init aborted l = Unit

abbrev Counts : ℕ → ℕ → Thread → Type 0
Counts n init th = (length th.locals.ds ≡ n / 2) × Stands n init th.pc th.locals

move-Counts :
    (n init now : ℕ) (a : Answer) (pc : Pc) (l : Locals) (own other : Follicle)
    → init ≤ 1
    → Counts n init (record { pc = pc; locals = l })
    → Counts n init (move n init now a pc l own other).thread
unfolding move
move-Counts n init now a top l own other h (len, st) = elim (Bool-cases (ltb l.i n)) [
  | inl more ↦ rw more (len, ground (arith, more))
  | inr over ↦
      let at_end : l.i ≡ n = ground (arith, over) in
      rw over (len, (at_end, st.1, λ e. omega (arith, st.2 e)))
]
move-Counts n init now a locking l own other h (len, st) = elim (Bool-cases (can_lock a own)) [
  | inl unlocked ↦ elim (Bool-cases (is_sender init l.i)) [
    | inl mine ↦ rw (unlocked, mine) (len, ground (arith, mine))
    | inr theirs ↦ rw (unlocked, theirs) (len, ground (arith, theirs))
  ]
  | inr shut ↦ rw shut (len, st)
]
move-Counts n init now a waiting l own other h (len, st) = elim (Bool-cases (is_error a)) [
  | inl bad ↦ rw bad (len, tt)
  | inr good ↦ elim (Bool-cases (own.futex == 1)) [
    | inl shut ↦ rw (good, shut) (len, st)
    | inr unlocked ↦ rw (good, unlocked) (len, st)
  ]
]
move-Counts n init now a asleep l own other h (len, st) = elim (Bool-cases (is_error a)) [
  | inl bad ↦ rw bad (len, tt)
  | inr good ↦ elim (Bool-cases (is_spurious a)) [
    | inl soon ↦ rw (good, soon) (len, st)
    | inr late ↦ rw (good, late) (len, st)
  ]
]
move-Counts n init now a timing l own other h (len, st) = elim (Bool-cases (leb now l.tsc)) [
  | inl early ↦ rw early (len, st)
  | inr later ↦ rw later (len, st)
]
move-Counts n init now a (storing t) l own other h c = c
move-Counts n init now a giving l own other h (len, st) = elim (Bool-cases (can_unlock other)) [
  | inl shut ↦ rw shut (len, st)
  | inr unlocked ↦ rw unlocked (len, tt)
]
move-Counts n init now a waking_other l own other h (len, st) = elim (Bool-cases (is_error a)) [
  | inl bad ↦ rw bad (len, tt)
  | inr good ↦
      rw good (len, (omega arith, next-IsCounted_sent init l h st.1 st.2, λ e. omega arith))
]
move-Counts n init now a loading l own other h c = c
move-Counts n init now a (loaded v) l own other h (len, st) = elim (received-cases n now v l) [
  | inl (room, e) ↦ rw e (
    length-set l.ds l.j (u32 (sub64 now v)) ∙ len,
    (st.0, next-taken-IsCounted init now v l h st.1 st.2, λ e. omega arith),
  )
  | inr (full, e) ↦ rw e (len, omega arith)
]
move-Counts n init now a unlocking l own other h (len, st) = elim (Bool-cases (can_unlock own)) [
  | inl shut ↦ rw shut (len, st)
  | inr unlocked ↦ rw unlocked (len, tt)
]
move-Counts n init now a waking l own other h (len, st) = elim (Bool-cases (is_error a)) [
  | inl bad ↦ rw bad (len, tt)
  | inr good ↦ rw good (len, (omega arith, st.1, st.2))
]
move-Counts n init now a finished l own other h c = c
move-Counts n init now a failed l own other h c = c
move-Counts n init now a faulted l own other h c = c
move-Counts n init now a aborted l own other h c = c

wake-Counts :
    (n init : ℕ) (b : Bool) (pc : Pc) (l : Locals)
    → Stands n init pc l
    → Stands n init (wake b pc) l
wake-Counts n init true asleep l h = h
wake-Counts n init false pc l h = h
wake-Counts n init true pc l h = h

Reach-Counts :
    (n : ℕ) (s : System) (log : List Event)
    → Reach n s log
    → Counts n 0 s.thread0 × Counts n 1 s.thread1
Reach-Counts n _ _ (started now) =
    let size = length-replicate (n / 2) 0 in
    (
      (size, (omega arith, start-IsCounted n 0 (omega arith), λ e. omega arith)),
      (size, (omega arith, start-IsCounted n 1 (omega arith), λ e. omega arith)),
    )
Reach-Counts n _ _ (stepped {s} {log} r (first a)) =
    let (h0, h1) = Reach-Counts n s log r in
    let m = move n 0 s.now a s.thread0.pc s.thread0.locals s.follicle0 s.follicle1 in
    (
      move-Counts n 0 s.now a s.thread0.pc s.thread0.locals s.follicle0 s.follicle1 (omega arith)
          h0,
      (h1.0, wake-Counts n 1 m.wakes s.thread1.pc s.thread1.locals h1.1),
    )
Reach-Counts n _ _ (stepped {s} {log} r (second a)) =
    let (h0, h1) = Reach-Counts n s log r in
    let m = move n 1 s.now a s.thread1.pc s.thread1.locals s.follicle1 s.follicle0 in
    (
      (h0.0, wake-Counts n 0 m.wakes s.thread0.pc s.thread0.locals h0.1),
      move-Counts n 1 s.now a s.thread1.pc s.thread1.locals s.follicle1 s.follicle0 (omega arith)
          h1,
    )
Reach-Counts n _ _ (stepped {s} {log} r (tick d)) = Reach-Counts n s log r

-- With an even number of iterations no run stores behind the end of an array.
pub Reach-ne-faulted :
    (n : ℕ) (s : System) (log : List Event)
    → n % 2 ≡ 0
    → Reach n s log
    → (s.thread0.pc ≢ faulted) × (s.thread1.pc ≢ faulted)
Reach-ne-faulted n s log even r =
    let ((_, h0), (_, h1)) = Reach-Counts n s log r in
    (
      λ e. let f = subst (λ pc. Stands n 0 pc s.thread0.locals) e h0 in omega arith,
      λ e. let f = subst (λ pc. Stands n 1 pc s.thread1.locals) e h1 in omega arith,
    )

-- With an odd number of iterations thread 1 finishes in no run: it has one delta more to store than
-- its array holds.
pub Reach-ne-finished :
    (n : ℕ) (s : System) (log : List Event) → n % 2 ≡ 1 → Reach n s log → s.thread1.pc ≢ finished
Reach-ne-finished n s log odd r e =
    let (_, (_, h1)) = Reach-Counts n s log r in
    let f = subst (λ pc. Stands n 1 pc s.thread1.locals) e h1 in absurd (f.2 (omega arith))

finished-IsFinal :
    (n init : ℕ) (th : Thread) (x : Worker)
    → n % 2 ≡ 0
    → init ≤ 1
    → x.n ≡ n
    → Counts n init th
    → th.pc ≡ finished
    → (y : Worker) × (spin_main_finalize true x th.locals.ds th.locals.j ≡ done y)
      × IsFinal th.locals.ds (n / 2) y
finished-IsFinal n init th x even h same (len, st) e =
    let at_end = subst (λ pc. Stands n init pc th.locals) e st in
    let j-eq : th.locals.j ≡ n / 2 = omega (arith, at_end) in
    let x-eq : x.n / 2 ≡ n / 2 = ap (λ m. m / 2) same in
    let (y, ends, final) =
      spin_main_finalize-IsFinal x th.locals.ds th.locals.j (omega arith) (omega arith) in
    (y, ends, subst (λ j. IsFinal th.locals.ds j y) j-eq final)

-- With an even number n of iterations, in a state of a run in which both threads have finished, each
-- passes the assertion and, given memory, reports n / 2 deltas, in the order of their recording and
-- sorted.
pub finished-AreFinal :
    (n : ℕ) (s : System) (log : List Event) (x0 x1 : Worker)
    → n % 2 ≡ 0
    → x0.n ≡ n
    → x1.n ≡ n
    → Reach n s log
    → s.thread0.pc ≡ finished
    → s.thread1.pc ≡ finished
    → ((y : Worker) × (spin_main_finalize true x0 s.thread0.locals.ds s.thread0.locals.j ≡ done y)
        × IsFinal s.thread0.locals.ds (n / 2) y)
      × ((y : Worker) × (spin_main_finalize true x1 s.thread1.locals.ds s.thread1.locals.j ≡ done y)
          × IsFinal s.thread1.locals.ds (n / 2) y)
finished-AreFinal n s log x0 x1 even e0 e1 r f0 f1 =
    let (h0, h1) = Reach-Counts n s log r in
    (
      finished-IsFinal n 0 s.thread0 x0 even (omega arith) e0 h0 f0,
      finished-IsFinal n 1 s.thread1 x1 even (omega arith) e1 h1 f1,
    )
