-- ===== src/Pingpong/Condvar/Progress.antt =====
-- The threads of pingpong.c that use condition variables miss no signal, and are in no deadlock.
use osjitter.Prelude.{
  ℕ, ◌≤◌, ◌<◌, ◌≡◌, ◌⊎◌, ap, inl, inr, refl, Bool, true, false, not, List, arith, Bool-cases,
}
use osjitter.Pingpong.Worker.{Locals}
use osjitter.Pingpong.Rally.{Event}
use osjitter.Pingpong.Condvar.{
  Pc, top, timing, acquiring, signalling, locking, testing, blocking, waiting, relocking, loading,
  unlocking, loaded, finished, failed, faulted, Thread, Item, System, Reach,
}
use osjitter.Pingpong.Condvar.Phases.{
  CanSend, Waits, Finds, Holds, is_waiting, is_due, Turn, free, held, stored, given, got,
}
use osjitter.Pingpong.Condvar.Refines.{Reach-Alternates}

-- Whether a thread has a step to take, without spurious wake-ups: it waits for a mutex that is locked,
-- and for a signal.
abbrev pub can_step : Pc → Item → Item → Bool
can_step (acquiring t) own other = not other.locked
can_step locking own other = not own.locked
can_step waiting own other = not own.waits
can_step relocking own other = not own.locked
can_step finished own other = false
can_step failed own other = false
can_step faulted own other = false
can_step _ own other = true

-- whether a failed call, or a store behind the end of its array, has stopped a thread
abbrev pub is_stopped : Pc → Bool
is_stopped failed = true
is_stopped faulted = true
is_stopped _ = false

-- A thread has a step to take, both have finished, or one was stopped.
abbrev pub IsLive : Thread → Thread → Item → Item → Type 0
IsLive a b ia ib =
    (can_step a.pc ia ib ≡ true)
    ⊎ (can_step b.pc ib ia ≡ true)
    ⊎ ((a.pc ≡ finished) × (b.pc ≡ finished))
    ⊎ (is_stopped a.pc ≡ true)
    ⊎ (is_stopped b.pc ≡ true)

swap-IsLive : (a b : Thread) (ia ib : Item) → IsLive a b ia ib → IsLive b a ib ia
swap-IsLive a b ia ib (inl h) = inr (inl h)
swap-IsLive a b ia ib (inr (inl h)) = inl h
swap-IsLive a b ia ib (inr (inr (inl (h, h')))) = inr (inr (inl (h', h)))
swap-IsLive a b ia ib (inr (inr (inr (inl h)))) = inr (inr (inr (inr h)))
swap-IsLive a b ia ib (inr (inr (inr (inr h)))) = inr (inr (inr (inl h)))

-- what a thread can do by itself
abbrev Goes : Pc → Item → Item → Type 0
Goes pc own other = (can_step pc own other ≡ true) ⊎ (is_stopped pc ≡ true)

first-Goes : (a b : Thread) (ia ib : Item) → Goes a.pc ia ib → IsLive a b ia ib
first-Goes a b ia ib (inl go) = inl go
first-Goes a b ia ib (inr stop) = inr (inr (inr (inl stop)))

second-Goes : (a b : Thread) (ia ib : Item) → Goes b.pc ib ia → IsLive a b ia ib
second-Goes a b ia ib (inl go) = inr (inl go)
second-Goes a b ia ib (inr stop) = inr (inr (inr (inr stop)))

-- A waiting thread that has the mutex goes on.
Waits-locked :
    (n k : ℕ) (pc : Pc) (l : Locals) (own other : Item)
    → own.locked ≡ true
    → Waits n k own.locked pc l
    → Goes pc own other
Waits-locked n k testing l own other taken h = inl refl
Waits-locked n k blocking l own other taken h = inl refl
Waits-locked n k signalling l own other taken h = inl refl
Waits-locked n k top l own other taken h = inl refl
Waits-locked n k locking l own other taken (_, _, mine) = cc
Waits-locked n k waiting l own other taken (_, _, mine) = cc
Waits-locked n k relocking l own other taken (_, _, mine) = cc
Waits-locked n k finished l own other taken (_, _, mine) = cc
Waits-locked n k failed l own other taken h = inr refl
Waits-locked n k _ l own other taken h = ground arith

Waits-over :
    (n k : ℕ) (pc : Pc) (l : Locals) (own other : Item)
    → n ≤ k
    → Waits n k own.locked pc l
    → Goes pc own other ⊎ (pc ≡ finished)
Waits-over n k signalling l own other over h = inl (inl refl)
Waits-over n k top l own other over h = inl (inl refl)
Waits-over n k finished l own other over h = inr refl
Waits-over n k failed l own other over h = inl (inr refl)
Waits-over n k _ l own other over h = ground arith

CanSend-go :
    (n now k : ℕ) (pc : Pc) (l : Locals) (own other : Item)
    → CanSend n now k pc l
    → Goes pc own other ⊎ (other.locked ≡ true) ⊎ ((pc ≡ finished) × (n ≤ k))
CanSend-go n now k top l own other h = inl (inl refl)
CanSend-go n now k timing l own other h = inl (inl refl)
CanSend-go n now k (acquiring t) l own other h = elim (Bool-cases other.locked) [
  | inl taken ↦ inr (inl taken)
  | inr unlocked ↦ inl (inl (ap not unlocked))
]
CanSend-go n now k finished l own other h = inr (inr (refl, h.1))
CanSend-go n now k failed l own other h = inl (inr refl)
CanSend-go n now k _ l own other h = ground arith

-- The receiver of a notification goes on, unless it is about to be woken.
Finds-go :
    (n k : ℕ) (pc : Pc) (l : Locals) (own other : Item)
    → k < n
    → Finds n k own.locked pc l
    → Goes pc own other ⊎ ((pc ≡ waiting) × (own.waits ≡ true))
Finds-go n k signalling l own other more h = inl (inl refl)
Finds-go n k top l own other more h = inl (inl refl)
Finds-go n k locking l own other more (_, _, mine) = inl (inl (ap not mine))
Finds-go n k testing l own other more h = inl (inl refl)
Finds-go n k waiting l own other more h = elim (Bool-cases own.waits) [
  | inl waits ↦ inr (refl, waits)
  | inr woken ↦ inl (inl (ap not woken))
]
Finds-go n k relocking l own other more (_, _, mine) = inl (inl (ap not mine))
Finds-go n k loading l own other more h = inl (inl refl)
Finds-go n k finished l own other more h = absurd (omega arith)
Finds-go n k failed l own other more h = inl (inr refl)
Finds-go n k _ l own other more h = ground arith

Holds-go :
    (k t : ℕ) (pc : Pc) (l : Locals) (own other : Item)
    → Holds k t own.locked pc l
    → Goes pc own other
Holds-go k t (unlocking v) l own other h = inl refl
Holds-go k t (loaded v) l own other h = inl refl
Holds-go k t faulted l own other h = inr refl
Holds-go k t failed l own other h = inr refl
Holds-go k t _ l own other h = ground arith

is_due-go : (pc : Pc) (own other : Item) → is_due pc ≡ true → Goes pc own other
is_due-go signalling own other h = inl refl
is_due-go failed own other h = inr refl
is_due-go _ own other h = ground arith

Turn-IsLive :
    (n now k : ℕ) (s r : Thread) (log : List Event) (ss sr : Item)
    → Turn n now log k s r ss sr
    → IsLive s r ss sr
Turn-IsLive n now k s r log ss sr (free room times old shut i waits rally) =
    elim (CanSend-go n now k s.pc s.locals ss sr i) [
      | inl go ↦ first-Goes s r ss sr go
      | inr (inl taken) ↦ second-Goes s r ss sr (Waits-locked n k r.pc r.locals sr ss taken waits)
      | inr (inr (s-done, over)) ↦ elim (Waits-over n k r.pc r.locals sr ss over waits) [
        | inl go ↦ second-Goes s r ss sr go
        | inr r-done ↦ inr (inr (inl (s-done, r-done)))
      ]
    ]
Turn-IsLive n now k s r log ss sr (held t at_t i times old locks waits rally) =
    inl (ap (λ pc. can_step pc ss sr) at_t)
Turn-IsLive n now k s r log ss sr (stored (inl at_release) i times locks waits rally) =
    inl (ap (λ pc. can_step pc ss sr) at_release)
Turn-IsLive n now k s r log ss sr (stored (inr stuck) i times locks waits rally) =
    first-Goes s r ss sr (inr (ap is_stopped stuck))
Turn-IsLive n now k s r log ss sr (given i times waits finds heard rally) =
    elim (Finds-go n k r.pc r.locals sr ss i.0 finds) [
      | inl go ↦ second-Goes s r ss sr go
      | inr (at_wait, unsignalled) ↦
          first-Goes s r ss sr (is_due-go s.pc ss sr (heard (ap is_waiting at_wait) unsignalled))
    ]
Turn-IsLive n now k s r log ss sr (got i times waits holds rally) =
    second-Goes s r ss sr (Holds-go k sr.tsc r.pc r.locals sr ss holds)

-- In every state of every run a thread has a step to take that needs no spurious wake-up, both have
-- finished, or one was stopped by a failed call or by a store behind the end of its array: no signal
-- is missed, and the mutexes lead to no deadlock.
pub Reach-IsLive :
    (n : ℕ) (s : System) (log : List Event)
    → Reach n s log
    → IsLive s.thread0 s.thread1 s.item0 s.item1
Reach-IsLive n s log r =
    let (k, turns) = Reach-Alternates n s log r in
    elim turns [
      | inl (_, t) ↦ Turn-IsLive n s.now k s.thread0 s.thread1 log s.item0 s.item1 t
      | inr (_, t) ↦
          swap-IsLive s.thread1 s.thread0 s.item1 s.item0
            (Turn-IsLive n s.now k s.thread1 s.thread0 log s.item1 s.item0 t)
    ]
