-- ===== src/Pingpong/Pipe/Ends.antt =====
-- Every run of the threads of pingpong.c that use pipes can go on to its end, in a bounded number of
-- steps.
use osjitter.Prelude.{
  ℕ, ◌+◌, ◌*◌, ◌≤◌, ◌<◌, ◌≡◌, ◌⊎◌, inl, inr, refl, true, false, List, [], ◌∷◌, arith, Bool-cases,
  ltb, leb,
}
use osjitter.Pingpong.Worker.{Locals, is_sender}
use osjitter.Pingpong.Worker.Room.{received-cases}
use osjitter.Pingpong.Rally.{Event}
use osjitter.Pingpong.Pipe.{
  Pc, top, timing, writing, reading, loaded, finished, failed, faulted, System, Reach, move, moved0,
  moved1,
}
use osjitter.Pingpong.Pipe.Progress.{can_step, IsBroken, Reach-IsUnstuck}
use osjitter.Pingpong.Pipe.Effort.{same_place, effort, effort-left}

-- A thread that has a step to take leaves its place, once the counter is ahead.
can_step-moves :
    (n now init : ℕ) (pc : Pc) (l : Locals) (own other : List ℕ)
    → l.tsc < now
    → can_step pc own ≡ true
    → same_place pc (move n init now true pc l own other).thread.pc ≡ false
unfolding move
can_step-moves n now init top l own other ahead h = elim (Bool-cases (ltb l.i n)) [
  | inl more ↦ elim (Bool-cases (is_sender init l.i)) [
    | inl mine ↦ rw (more, mine) refl
    | inr theirs ↦ rw (more, theirs) refl
  ]
  | inr over ↦ rw over refl
]
can_step-moves n now init timing l own other ahead h =
    let later : leb now l.tsc ≡ false = ground arith in rw later refl
can_step-moves n now init (writing t) l own other ahead h = refl
can_step-moves n now init reading l [] other ahead h = cc
can_step-moves n now init reading l (t ∷ own) other ahead h = refl
can_step-moves n now init (loaded v) l own other ahead h = elim (received-cases n now v l) [
  | inl (room, e) ↦ rw e refl
  | inr (full, e) ↦ rw e refl
]
can_step-moves n now init finished l own other ahead h = cc
can_step-moves n now init failed l own other ahead h = cc
can_step-moves n now init faulted l own other ahead h = cc

-- After `d` ticks a thread's next step leads to another place.
abbrev pub CanGoOn : ℕ → System → Type 0
CanGoOn n s =
    (d : ℕ) × (let later = record s { now = s.now + d } in
      (same_place s.thread0.pc (moved0 n true later).thread.pc ≡ false)
      ⊎ (same_place s.thread1.pc (moved1 n true later).thread.pc ≡ false))

-- Both threads have finished, a call has failed, or a thread was stopped by a store behind the end of
-- its array.
abbrev pub IsOver : System → Type 0
IsOver s =
    ((s.thread0.pc ≡ finished) × (s.thread1.pc ≡ finished))
    ⊎ IsBroken s.thread0.pc
    ⊎ IsBroken s.thread1.pc

-- In every run at most 6n + 6 steps lead a thread to another place, and a run that is not over can go
-- on by such a step once the counter has gone on: so it comes to its end, if it goes on whenever it
-- can.
pub Reach-terminates :
    (n : ℕ) (s : System) (log : List Event) (r : Reach n s log)
    → (effort n r ≤ 6 * n + 6) × (IsOver s ⊎ CanGoOn n s)
Reach-terminates n s log r =
    let bound = effort-left n s log r in
    (
      omega arith,
      elim (Reach-IsUnstuck n s log r) [
        | inl go ↦ inr (
          s.thread0.locals.tsc + 1,
          inl (
              can_step-moves n (s.now + (s.thread0.locals.tsc + 1)) 0 s.thread0.pc s.thread0.locals
                s.pipe0 s.pipe1 (omega arith) go),
        )
        | inr (inl go) ↦ inr (
          s.thread1.locals.tsc + 1,
          inr (
              can_step-moves n (s.now + (s.thread1.locals.tsc + 1)) 1 s.thread1.pc s.thread1.locals
                s.pipe1 s.pipe0 (omega arith) go),
        )
        | inr (inr (inl done)) ↦ inl (inl done)
        | inr (inr (inr (inl broken))) ↦ inl (inr (inl broken))
        | inr (inr (inr (inr broken))) ↦ inl (inr (inr broken))
      ],
    )
