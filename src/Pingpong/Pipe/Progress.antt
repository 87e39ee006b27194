-- ===== src/Pingpong/Pipe/Progress.antt =====
-- The threads of pingpong.c that use pipes are in no deadlock.
use osjitter.Prelude.{
  ℕ, ◌≤◌, ◌<◌, ◌≡◌, ◌⊎◌, inl, inr, refl, Bool, true, false, List, [], ◌∷◌, arith,
}
use osjitter.Pingpong.Worker.{Locals}
use osjitter.Pingpong.Rally.{Event}
use osjitter.Pingpong.Pipe.{
  Pc, top, timing, writing, reading, loaded, finished, failed, faulted, Thread, System, Reach,
}
use osjitter.Pingpong.Pipe.Phases.{CanSend, Waits, Holds, Turn, before, flying, taken_out}
use osjitter.Pingpong.Pipe.Refines.{Reach-Alternates}

-- whether a thread has a step to take: a read waits for a message
abbrev pub can_step : Pc → List ℕ → Bool
can_step reading [] = false
can_step finished own = false
can_step failed own = false
can_step faulted own = false
can_step _ own = true

-- a call of the thread has failed, or it was stopped by a store behind the end of its array
abbrev pub IsBroken : Pc → Type 0
IsBroken failed = Unit
IsBroken faulted = Unit
IsBroken _ = ⊥

-- A thread has a step to take, both have finished, or one is broken.
abbrev pub IsUnstuck : Thread → Thread → List ℕ → List ℕ → Type 0
IsUnstuck a b pa pb =
    (can_step a.pc pa ≡ true)
    ⊎ (can_step b.pc pb ≡ true)
    ⊎ ((a.pc ≡ finished) × (b.pc ≡ finished))
    ⊎ IsBroken a.pc
    ⊎ IsBroken b.pc

swap-IsUnstuck : (a b : Thread) (pa pb : List ℕ) → IsUnstuck a b pa pb → IsUnstuck b a pb pa
swap-IsUnstuck a b pa pb (inl h) = inr (inl h)
swap-IsUnstuck a b pa pb (inr (inl h)) = inl h
swap-IsUnstuck a b pa pb (inr (inr (inl (h, h')))) = inr (inr (inl (h', h)))
swap-IsUnstuck a b pa pb (inr (inr (inr (inl h)))) = inr (inr (inr (inr h)))
swap-IsUnstuck a b pa pb (inr (inr (inr (inr h)))) = inr (inr (inr (inl h)))

CanSend-go :
    (n now : ℕ) (pc : Pc) (l : Locals) (own : List ℕ)
    → CanSend n now pc l
    → (can_step pc own ≡ true) ⊎ ((pc ≡ finished) × (n ≤ l.i)) ⊎ IsBroken pc
CanSend-go n now top l own h = inl refl
CanSend-go n now timing l own h = inl refl
CanSend-go n now (writing t) l own h = inl refl
CanSend-go n now finished l own h = inr (inl (refl, h))
CanSend-go n now failed l own h = inr (inr tt)
CanSend-go n now _ l own h = ground arith

-- A thread that waits goes on, if it has not come to its end and has a message to read.
Waits-go :
    (n t : ℕ) (pc : Pc) (l : Locals)
    → l.i < n
    → Waits n pc l
    → (can_step pc (t ∷ []) ≡ true) ⊎ IsBroken pc
Waits-go n t top l more h = inl refl
Waits-go n t reading l more h = inl refl
Waits-go n t finished l more h = absurd (omega arith)
Waits-go n t failed l more h = inr tt
Waits-go n t _ l more h = ground arith

Waits-over :
    (n : ℕ) (pc : Pc) (l : Locals)
    → n ≤ l.i
    → Waits n pc l
    → (can_step pc [] ≡ true) ⊎ (pc ≡ finished) ⊎ IsBroken pc
Waits-over n top l over h = inl refl
Waits-over n reading l over h = absurd (omega arith)
Waits-over n finished l over h = inr (inl refl)
Waits-over n failed l over h = inr (inr tt)
Waits-over n _ l over h = ground arith

Holds-go : (t : ℕ) (pc : Pc) → Holds t pc → (can_step pc [] ≡ true) ⊎ IsBroken pc
Holds-go t (loaded v) h = inl refl
Holds-go t faulted h = inr tt
Holds-go t _ h = ground arith

Turn-IsUnstuck :
    (n now k : ℕ) (s r : Thread) (log : List Event) (ps pr : List ℕ)
    → Turn n now log k s r ps pr
    → IsUnstuck s r ps pr
Turn-IsUnstuck n now k s r log _ _ (before (i, j, le, room, sends, waits, rally)) =
    elim (CanSend-go n now s.pc s.locals [] sends) [
      | inl go ↦ inl go
      | inr (inr broken) ↦ inr (inr (inr (inl broken)))
      | inr (inl (s-done, over)) ↦ elim (Waits-over n r.pc r.locals (omega arith) waits) [
        | inl go ↦ inr (inl go)
        | inr (inl r-done) ↦ inr (inr (inl (s-done, r-done)))
        | inr (inr broken) ↦ inr (inr (inr (inr broken)))
      ]
    ]
Turn-IsUnstuck n now k s r log _ _ (flying {t} (i, j, more, _, _, _) waits rally) =
    elim (Waits-go n t r.pc r.locals (omega arith) waits) [
      | inl go ↦ inr (inl go)
      | inr broken ↦ inr (inr (inr (inr broken)))
    ]
Turn-IsUnstuck n now k s r log _ _ (taken_out t h holds rally) = elim (Holds-go t r.pc holds) [
  | inl go ↦ inr (inl go)
  | inr broken ↦ inr (inr (inr (inr broken)))
]

-- In every state of every run a thread has a step to take, both have finished, a call has failed, or
-- a thread was stopped by a store behind the end of its array: the pipes lead to no deadlock.
pub Reach-IsUnstuck :
    (n : ℕ) (s : System) (log : List Event)
    → Reach n s log
    → IsUnstuck s.thread0 s.thread1 s.pipe0 s.pipe1
Reach-IsUnstuck n s log r =
    let (k, turns) = Reach-Alternates n s log r in
    elim turns [
      | inl (_, t) ↦ Turn-IsUnstuck n s.now k s.thread0 s.thread1 log s.pipe0 s.pipe1 t
      | inr (_, t) ↦
          swap-IsUnstuck s.thread1 s.thread0 s.pipe1 s.pipe0
            (Turn-IsUnstuck n s.now k s.thread1 s.thread0 log s.pipe1 s.pipe0 t)
    ]
