-- ===== src/Pingpong/Futex/Locks.antt =====
-- No thread of pingpong.c that shares futexes aborts, and the two do not sleep both.
use Prim.Native.Nat.{suc}
use mathlib.Core.Path.{subst}
use osjitter.Prelude.{ℕ, ◌%◌, ◌≤◌, ◌≡◌, ◌≢◌, ◌⊎◌, inl, inr, refl, Bool, true, false, List, arith}
use osjitter.Pingpong.Worker.{Locals}
use osjitter.Pingpong.Rally.{Event}
use osjitter.Pingpong.Futex.{
  Pc, top, locking, waiting, asleep, timing, storing, giving, waking_other, loading, loaded,
  unlocking, waking, finished, failed, faulted, aborted, Thread, Follicle, System, Reach,
}
use osjitter.Pingpong.Futex.Phases.{
  IsFree, IsLockedOut, Sends, has_unlocked, CanReceive, Receives, Turn, free, held, given, taken,
}
use osjitter.Pingpong.Futex.Order.{Reach-InPhase}
use osjitter.Pingpong.Futex.Room.{Reach-ne-faulted}

Turn-ne-aborted :
    (n now k : ℕ) (s r : Thread) (fs fr : Follicle) (log : List Event)
    → Turn n now log k s r fs fr
    → (s.pc ≢ aborted) × (r.pc ≢ aborted)
Turn-ne-aborted n now k s r fs fr log (free (h0, h1, h2, h3, h4, h5) _) = (
  λ e. subst (λ pc. IsFree n k pc s.locals) e h4,
  λ e. subst (λ pc. IsLockedOut n k pc r.locals) e h5,
)
Turn-ne-aborted n now k s r fs fr log (held (h0, h1, h2, h3, h4, h5, h6) _) = (
  λ e. subst (λ pc. Sends now fr.tsc pc s.locals) e h5,
  λ e. subst (λ pc. IsLockedOut n k pc r.locals) e h6,
)
Turn-ne-aborted n now k s r fs fr log (given (h0, h1, h2, h3, h4, h5, h6, h7) _) = (
  λ e. subst (λ pc. IsLockedOut n (suc k) pc s.locals) e h6,
  λ e. subst (λ pc. CanReceive k s.pc pc r.locals) e h7,
)
Turn-ne-aborted n now k s r fs fr log (taken (h0, h1, h2, h3, h4, h5, h6, h7) _) = (
  λ e. subst (λ pc. IsLockedOut n (suc k) pc s.locals) e h6,
  λ e. subst (λ pc. Receives s.locals.tsc fr.tsc pc r.locals) e h7,
)

-- No run reaches an `abort`, whichever calls fail: every word that a thread unlocks is locked.
pub Reach-ne-aborted :
    (n : ℕ) (s : System) (log : List Event)
    → Reach n s log
    → (s.thread0.pc ≢ aborted) × (s.thread1.pc ≢ aborted)
Reach-ne-aborted n s log r =
    let (k, turns) = Reach-InPhase n s log r in
    elim turns [
      | inl (even, t) ↦ Turn-ne-aborted n s.now k s.thread0 s.thread1 s.follicle0 s.follicle1 log t
      | inr (odd, t) ↦
          let (h1, h0) =
            Turn-ne-aborted n s.now k s.thread1 s.thread0 s.follicle1 s.follicle0 log t in
          (h0, h1)
    ]

-- whether a thread has a step to take
abbrev pub is_live : Pc → Bool
is_live asleep = false
is_live finished = false
is_live failed = false
is_live faulted = false
is_live aborted = false
is_live _ = true

-- a thread that has a step to take, or was stopped by a failed call
abbrev Goes : Pc → Type 0
Goes pc = (is_live pc ≡ true) ⊎ (pc ≡ failed)

IsFree-Goes :
    (n k : ℕ) (pc : Pc) (l : Locals) → IsFree n k pc l → Goes pc ⊎ ((pc ≡ finished) × (n ≤ k))
IsFree-Goes n k top l h = inl (inl refl)
IsFree-Goes n k locking l h = inl (inl refl)
IsFree-Goes n k waiting l h = inl (inl refl)
IsFree-Goes n k waking l h = inl (inl refl)
IsFree-Goes n k failed l h = inl (inr refl)
IsFree-Goes n k finished l h = inr (refl, h.1)
IsFree-Goes n k _ l h = ground arith

IsLockedOut-Goes :
    (n k : ℕ) (pc : Pc) (l : Locals) → n ≤ k → IsLockedOut n k pc l → Goes pc ⊎ (pc ≡ finished)
IsLockedOut-Goes n k top l over h = inl (inl refl)
IsLockedOut-Goes n k locking l over h = inl (inl refl)
IsLockedOut-Goes n k waiting l over h = inl (inl refl)
IsLockedOut-Goes n k asleep l over h = absurd (omega arith)
IsLockedOut-Goes n k waking_other l over h = inl (inl refl)
IsLockedOut-Goes n k failed l over h = inl (inr refl)
IsLockedOut-Goes n k finished l over h = inr refl
IsLockedOut-Goes n k _ l over h = ground arith

Sends-live : (now cell : ℕ) (pc : Pc) (l : Locals) → Sends now cell pc l → is_live pc ≡ true
Sends-live now cell timing l h = refl
Sends-live now cell (storing t) l h = refl
Sends-live now cell giving l h = refl
Sends-live now cell _ l h = ground arith

has_unlocked-Goes : (pc : Pc) → has_unlocked pc ≡ true → Goes pc
has_unlocked-Goes waking_other h = inl refl
has_unlocked-Goes failed h = inr refl
has_unlocked-Goes _ h = ground arith

CanReceive-Goes :
    (k : ℕ) (sender pc : Pc) (l : Locals) → CanReceive k sender pc l → Goes sender ⊎ Goes pc
CanReceive-Goes k sender top l h = inr (inl refl)
CanReceive-Goes k sender locking l h = inr (inl refl)
CanReceive-Goes k sender waiting l h = inr (inl refl)
CanReceive-Goes k sender waking_other l h = inr (inl refl)
CanReceive-Goes k sender failed l h = inr (inr refl)
CanReceive-Goes k sender asleep l h = inl (has_unlocked-Goes sender h.1)
CanReceive-Goes k sender _ l h = ground arith

Receives-live :
    (last cell : ℕ) (pc : Pc) (l : Locals)
    → Receives last cell pc l
    → (is_live pc ≡ true) ⊎ (pc ≡ faulted)
Receives-live last cell loading l h = inl refl
Receives-live last cell (loaded v) l h = inl refl
Receives-live last cell unlocking l h = inl refl
Receives-live last cell faulted l h = inr refl
Receives-live last cell _ l h = ground arith

-- two threads that are not stuck: one is live, both have finished, or a call of one has failed
abbrev pub AreUnstuck : Pc → Pc → Type 0
AreUnstuck p q =
    (is_live p ≡ true)
    ⊎ (is_live q ≡ true)
    ⊎ ((p ≡ finished) × (q ≡ finished))
    ⊎ (p ≡ failed)
    ⊎ (q ≡ failed)

first-Goes : (p q : Pc) → Goes p → AreUnstuck p q
first-Goes p q (inl live) = inl live
first-Goes p q (inr stop) = inr (inr (inr (inl stop)))

second-Goes : (p q : Pc) → Goes q → AreUnstuck p q
second-Goes p q (inl live) = inr (inl live)
second-Goes p q (inr stop) = inr (inr (inr (inr stop)))

Turn-AreUnstuck :
    (n now k : ℕ) (s r : Thread) (fs fr : Follicle) (log : List Event)
    → Turn n now log k s r fs fr
    → r.pc ≢ faulted
    → AreUnstuck s.pc r.pc
Turn-AreUnstuck n now k s r fs fr log (free (h0, h1, h2, h3, h4, h5) _) ok =
    elim (IsFree-Goes n k s.pc s.locals h4) [
      | inl go ↦ first-Goes s.pc r.pc go
      | inr (s-done, over) ↦ elim (IsLockedOut-Goes n k r.pc r.locals over h5) [
        | inl go ↦ second-Goes s.pc r.pc go
        | inr r-done ↦ inr (inr (inl (s-done, r-done)))
      ]
    ]
Turn-AreUnstuck n now k s r fs fr log (held (h0, h1, h2, h3, h4, h5, h6) _) ok =
    inl (Sends-live now fr.tsc s.pc s.locals h5)
Turn-AreUnstuck n now k s r fs fr log (given (h0, h1, h2, h3, h4, h5, h6, h7) _) ok =
    elim (CanReceive-Goes k s.pc r.pc r.locals h7) [
      | inl go ↦ first-Goes s.pc r.pc go
      | inr go ↦ second-Goes s.pc r.pc go
    ]
Turn-AreUnstuck n now k s r fs fr log (taken (h0, h1, h2, h3, h4, h5, h6, h7) _) ok =
    elim (Receives-live s.locals.tsc fr.tsc r.pc r.locals h7) [
      | inl live ↦ inr (inl live)
      | inr bad ↦ absurd (ok bad)
    ]

swap-AreUnstuck : (p q : Pc) → AreUnstuck p q → AreUnstuck q p
swap-AreUnstuck p q (inl h) = inr (inl h)
swap-AreUnstuck p q (inr (inl h)) = inl h
swap-AreUnstuck p q (inr (inr (inl (h, h')))) = inr (inr (inl (h', h)))
swap-AreUnstuck p q (inr (inr (inr (inl h)))) = inr (inr (inr (inr h)))
swap-AreUnstuck p q (inr (inr (inr (inr h)))) = inr (inr (inr (inl h)))

-- With an even number of iterations no run ends in a deadlock: a thread has a step to take, both have
-- finished, or one was stopped by a failed call. In particular no FUTEX_WAKE is lost.
pub Reach-AreUnstuck :
    (n : ℕ) (s : System) (log : List Event)
    → n % 2 ≡ 0
    → Reach n s log
    → AreUnstuck s.thread0.pc s.thread1.pc
Reach-AreUnstuck n s log even r =
    let (k, turns) = Reach-InPhase n s log r in
    let (ok0, ok1) = Reach-ne-faulted n s log even r in
    elim turns [
      | inl (_, t) ↦ Turn-AreUnstuck n s.now k s.thread0 s.thread1 s.follicle0 s.follicle1 log t ok1
      | inr (_, t) ↦
          swap-AreUnstuck s.thread1.pc s.thread0.pc
            (Turn-AreUnstuck n s.now k s.thread1 s.thread0 s.follicle1 s.follicle0 log t ok0)
    ]
