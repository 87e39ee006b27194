-- ===== src/Pingpong/Pipe/Effort.antt =====
-- The threads of pingpong.c that use pipes come to an end: how many steps they can take.
use osjitter.Prelude.{
  ℕ, ◌+◌, ◌-◌, ◌*◌, ◌≤◌, ◌<◌, ◌≡◌, ◌⊎◌, inl, inr, refl, Bool, true, false, List, [], ◌∷◌, arith,
  Bool-cases, ltb, leb, if◌then◌else◌,
}
use osjitter.Pingpong.Worker.{Locals, is_sender}
use osjitter.Pingpong.Worker.Room.{received-cases}
use osjitter.Pingpong.Rally.{Event}
use osjitter.Pingpong.Pipe.{
  Pc, top, timing, writing, reading, loaded, finished, failed, faulted, Thread, System, move,
  moved0, moved1, first, second, tick, Reach, started, stepped,
}
use osjitter.Pingpong.Pipe.Phases.{CanSend, Waits, Holds, Turn, before, flying, taken_out}
use osjitter.Pingpong.Pipe.Refines.{Reach-Alternates}

-- Three steps an iteration, as long as a thread has not stopped.
abbrev pub left : ℕ → Pc → Locals → ℕ
left n top l = 3 * (n - l.i) + 3
left n timing l = 3 * (n - l.i) + 2
left n reading l = 3 * (n - l.i) + 2
left n (writing t) l = 3 * (n - l.i) + 1
left n (loaded v) l = 3 * (n - l.i) + 1
left n finished l = 0
left n failed l = 0
left n faulted l = 0

-- whether two places are the same, apart from a time
abbrev pub same_place : Pc → Pc → Bool
same_place top top = true
same_place timing timing = true
same_place reading reading = true
same_place (writing t) (writing u) = true
same_place (loaded t) (loaded u) = true
same_place finished finished = true
same_place failed failed = true
same_place faulted faulted = true
same_place _ _ = false

-- a thread that is about to write or to record is in an iteration below n
abbrev pub IsInside : ℕ → Pc → Locals → Type 0
IsInside n (writing t) l = l.i < n
IsInside n (loaded v) l = l.i < n
IsInside n _ l = Unit

-- A step either leaves the thread in its place, or there is less left.
pub move-left :
    (n now init : ℕ) (ok : Bool) (pc : Pc) (l : Locals) (own other : List ℕ)
    → IsInside n pc l
    → let m = move n init now ok pc l own other in
      ((same_place pc m.thread.pc ≡ true) × (left n m.thread.pc m.thread.locals ≡ left n pc l))
      ⊎ ((same_place pc m.thread.pc ≡ false) × (left n m.thread.pc m.thread.locals < left n pc l))
unfolding move
move-left n now init ok top l own other h = elim (Bool-cases (ltb l.i n)) [
  | inl more ↦ elim (Bool-cases (is_sender init l.i)) [
    | inl mine ↦ rw (more, mine) (inr (refl, omega arith))
    | inr theirs ↦ rw (more, theirs) (inr (refl, omega arith))
  ]
  | inr over ↦ rw over (inr (refl, omega arith))
]
move-left n now init ok timing l own other h = elim (Bool-cases (leb now l.tsc)) [
  | inl early ↦ rw early (inl (refl, refl))
  | inr later ↦ rw later (inr (refl, omega arith))
]
move-left n now init true (writing t) l own other h = inr (refl, omega arith)
move-left n now init false (writing t) l own other h = inr (refl, omega arith)
move-left n now init true reading l [] other h = inl (refl, refl)
move-left n now init false reading l [] other h = inr (refl, omega arith)
move-left n now init true reading l (t ∷ own) other h = inr (refl, omega arith)
move-left n now init false reading l (t ∷ own) other h = inr (refl, omega arith)
move-left n now init ok (loaded v) l own other h = elim (received-cases n now v l) [
  | inl (room, e) ↦ rw e (inr (refl, omega arith))
  | inr (full, e) ↦ rw e (inr (refl, omega arith))
]
move-left n now init ok finished l own other h = inl (refl, refl)
move-left n now init ok failed l own other h = inl (refl, refl)
move-left n now init ok faulted l own other h = inl (refl, refl)

CanSend-IsInside : (n now : ℕ) (pc : Pc) (l : Locals) → CanSend n now pc l → IsInside n pc l
CanSend-IsInside n now (writing t) l h = h.2
CanSend-IsInside n now (loaded v) l h = absurd h
CanSend-IsInside n now top l h = tt
CanSend-IsInside n now timing l h = tt
CanSend-IsInside n now finished l h = tt
CanSend-IsInside n now failed l h = tt
CanSend-IsInside n now _ l h = ground arith

Waits-IsInside : (n : ℕ) (pc : Pc) (l : Locals) → Waits n pc l → IsInside n pc l
Waits-IsInside n (writing t) l h = absurd h
Waits-IsInside n (loaded v) l h = absurd h
Waits-IsInside n top l h = tt
Waits-IsInside n reading l h = tt
Waits-IsInside n finished l h = tt
Waits-IsInside n failed l h = tt
Waits-IsInside n _ l h = ground arith

Holds-IsInside : (n t : ℕ) (pc : Pc) (l : Locals) → l.i < n → Holds t pc → IsInside n pc l
Holds-IsInside n t (loaded v) l lt h = lt
Holds-IsInside n t faulted l lt h = tt
Holds-IsInside n t _ l lt h = ground arith

abbrev BothInside : ℕ → Thread → Thread → Type 0
BothInside n a b = IsInside n a.pc a.locals × IsInside n b.pc b.locals

Turn-inside :
    (n now k : ℕ) (s r : Thread) (log : List Event) (ps pr : List ℕ)
    → Turn n now log k s r ps pr
    → BothInside n s r
Turn-inside n now k s r log _ _ (before (i, j, le, room, sends, waits, rally)) =
    (CanSend-IsInside n now s.pc s.locals sends, Waits-IsInside n r.pc r.locals waits)
Turn-inside n now k s r log _ _ (flying (i, j, more, new, old, waits) wr rally) =
    (Waits-IsInside n s.pc s.locals waits, Waits-IsInside n r.pc r.locals wr)
Turn-inside n now k s r log _ _ (taken_out t (i, j, more, new, old, waits) holds rally) =
    (Waits-IsInside n s.pc s.locals waits, Holds-IsInside n t r.pc r.locals (omega arith) holds)

Reach-inside :
    (n : ℕ) (s : System) (log : List Event) → Reach n s log → BothInside n s.thread0 s.thread1
Reach-inside n s log r =
    let (k, turns) = Reach-Alternates n s log r in
    elim turns [
      | inl (_, t) ↦ Turn-inside n s.now k s.thread0 s.thread1 log s.pipe0 s.pipe1 t
      | inr (_, t) ↦
          let (h1, h0) = Turn-inside n s.now k s.thread1 s.thread0 log s.pipe1 s.pipe0 t in (h0, h1)
    ]

-- 1 for a step to another place
abbrev pub progress : Pc → Pc → ℕ
progress pc pc' = if same_place pc pc' then 0 else 1

-- how many steps of a run have brought a thread to another place
abbrev pub effort : (n : ℕ) {s : System} {log : List Event} → Reach n s log → ℕ
effort n (started now) = 0
effort n (stepped {s} r (first ok)) = progress s.thread0.pc (moved0 n ok s).thread.pc + effort n r
effort n (stepped {s} r (second ok)) = progress s.thread1.pc (moved1 n ok s).thread.pc + effort n r
effort n (stepped r (tick d)) = effort n r

move-progress :
    (n now init : ℕ) (ok : Bool) (pc : Pc) (l : Locals) (own other : List ℕ)
    → IsInside n pc l
    → let m = move n init now ok pc l own other in
      progress pc m.thread.pc + left n m.thread.pc m.thread.locals ≤ left n pc l
move-progress n now init ok pc l own other h = elim (move-left n now init ok pc l own other h) [
  | inl (same, e) ↦ rw same (omega arith)
  | inr (moves, lt) ↦ rw moves (omega arith)
]

pub effort-left :
    (n : ℕ) (s : System) (log : List Event) (r : Reach n s log)
    → effort n r + left n s.thread0.pc s.thread0.locals + left n s.thread1.pc s.thread1.locals
      ≤ 6 * n + 6
effort-left n _ _ (started now) = omega arith
effort-left n _ _ (stepped {s} {log} r (first ok)) =
    let rest = effort-left n s log r in
    let inside = Reach-inside n s log r in
    let step = move-progress n s.now 0 ok s.thread0.pc s.thread0.locals s.pipe0 s.pipe1 inside.0 in
    omega arith
effort-left n _ _ (stepped {s} {log} r (second ok)) =
    let rest = effort-left n s log r in
    let inside = Reach-inside n s log r in
    let step = move-progress n s.now 1 ok s.thread1.pc s.thread1.locals s.pipe1 s.pipe0 inside.1 in
    omega arith
effort-left n _ _ (stepped {s} {log} r (tick d)) = effort-left n s log r
