-- ===== src/Pingpong/Semaphore/Progress.antt =====
-- The threads of pingpong.c that share semaphores are in no deadlock.
use osjitter.Prelude.{ℕ, ◌≤◌, ◌≡◌, ◌⊎◌, inl, inr, refl, Bool, true, false, not, List, arith, ◌==◌}
use osjitter.Pingpong.Worker.{Locals}
use osjitter.Pingpong.Rally.{Event}
use osjitter.Pingpong.Semaphore.{
  Pc, top, taking, timing, storing, giving, loading, loaded, posting, finished, failed, faulted,
  Thread, Stripe, System, Reach,
}
use osjitter.Pingpong.Semaphore.Phases.{Waits, Sends, Receives, Turn, free, held, given, taken}
use osjitter.Pingpong.Semaphore.Order.{Reach-Alternates}

-- whether a thread has a step to take
abbrev pub can_step : Pc → Stripe → Bool
can_step taking own = not (own.sem == 0)
can_step finished own = false
can_step failed own = false
can_step faulted own = false
can_step _ own = true

-- whether a failed call, or a store behind the end of its array, has stopped a thread
abbrev pub is_stopped : Pc → Bool
is_stopped failed = true
is_stopped faulted = true
is_stopped _ = false

-- A thread has a step to take, both have finished, or one was stopped.
abbrev pub IsMoving : Thread → Thread → Stripe → Stripe → Type 0
IsMoving a b sa sb =
    (can_step a.pc sa ≡ true)
    ⊎ (can_step b.pc sb ≡ true)
    ⊎ ((a.pc ≡ finished) × (b.pc ≡ finished))
    ⊎ (is_stopped a.pc ≡ true)
    ⊎ (is_stopped b.pc ≡ true)

swap-IsMoving : (a b : Thread) (sa sb : Stripe) → IsMoving a b sa sb → IsMoving b a sb sa
swap-IsMoving a b sa sb (inl h) = inr (inl h)
swap-IsMoving a b sa sb (inr (inl h)) = inl h
swap-IsMoving a b sa sb (inr (inr (inl (h, h')))) = inr (inr (inl (h', h)))
swap-IsMoving a b sa sb (inr (inr (inr (inl h)))) = inr (inr (inr (inr h)))
swap-IsMoving a b sa sb (inr (inr (inr (inr h)))) = inr (inr (inr (inl h)))

-- what a thread can do by itself
abbrev Goes : Pc → Stripe → Type 0
Goes pc own = (can_step pc own ≡ true) ⊎ (is_stopped pc ≡ true)

Waits-go :
    (n k : ℕ) (pc : Pc) (l : Locals) (own : Stripe)
    → own.sem ≡ 1
    → Waits n k pc l
    → Goes pc own ⊎ ((pc ≡ finished) × (n ≤ k))
Waits-go n k top l own posted h = inl (inl refl)
Waits-go n k taking l own posted h = inl (inl (ground arith))
Waits-go n k finished l own posted h = inr (refl, h.1)
Waits-go n k failed l own posted h = inl (inr refl)
Waits-go n k _ l own posted h = ground arith

Waits-over :
    (n k : ℕ) (pc : Pc) (l : Locals) (own : Stripe)
    → n ≤ k
    → Waits n k pc l
    → Goes pc own ⊎ (pc ≡ finished)
Waits-over n k top l own over h = inl (inl refl)
Waits-over n k taking l own over h = absurd (omega arith)
Waits-over n k finished l own over h = inr refl
Waits-over n k failed l own over h = inl (inr refl)
Waits-over n k _ l own over h = ground arith

Sends-go : (now cell : ℕ) (pc : Pc) (l : Locals) (own : Stripe) → Sends now cell pc l → Goes pc own
Sends-go now cell timing l own h = inl refl
Sends-go now cell (storing t) l own h = inl refl
Sends-go now cell giving l own h = inl refl
Sends-go now cell failed l own h = inr refl
Sends-go now cell _ l own h = ground arith

Receives-go :
    (last cell : ℕ) (pc : Pc) (l : Locals) (own : Stripe) → Receives last cell pc l → Goes pc own
Receives-go last cell loading l own h = inl refl
Receives-go last cell (loaded v) l own h = inl refl
Receives-go last cell posting l own h = inl refl
Receives-go last cell failed l own h = inr refl
Receives-go last cell faulted l own h = inr refl
Receives-go last cell _ l own h = ground arith

first-Goes : (a b : Thread) (sa sb : Stripe) → Goes a.pc sa → IsMoving a b sa sb
first-Goes a b sa sb (inl go) = inl go
first-Goes a b sa sb (inr stop) = inr (inr (inr (inl stop)))

second-Goes : (a b : Thread) (sa sb : Stripe) → Goes b.pc sb → IsMoving a b sa sb
second-Goes a b sa sb (inl go) = inr (inl go)
second-Goes a b sa sb (inr stop) = inr (inr (inr (inr stop)))

Turn-IsMoving :
    (n now k : ℕ) (s r : Thread) (ss sr : Stripe) (log : List Event)
    → Turn n now log k s r ss sr
    → IsMoving s r ss sr
Turn-IsMoving n now k s r ss sr log (free (h0, h1, h2, h3, h4, h5) _) =
    elim (Waits-go n k s.pc s.locals ss h0 h4) [
      | inl go ↦ first-Goes s r ss sr go
      | inr (s-done, over) ↦ elim (Waits-over n k r.pc r.locals sr over h5) [
        | inl go ↦ second-Goes s r ss sr go
        | inr r-done ↦ inr (inr (inl (s-done, r-done)))
      ]
    ]
Turn-IsMoving n now k s r ss sr log (held (h0, h1, h2, h3, h4, h5, h6) _) =
    first-Goes s r ss sr (Sends-go now sr.tsc s.pc s.locals ss h5)
Turn-IsMoving n now k s r ss sr log (given (h0, h1, h2, h3, h4, h5, h6, h7) _) =
    elim (Waits-go n k r.pc r.locals sr h1 h7) [
      | inl go ↦ second-Goes s r ss sr go
      | inr (done, over) ↦ absurd (omega arith)
    ]
Turn-IsMoving n now k s r ss sr log (taken (h0, h1, h2, h3, h4, h5, h6, h7) _) =
    second-Goes s r ss sr (Receives-go s.locals.tsc sr.tsc r.pc r.locals sr h7)

-- In every state of every run a thread has a step to take, both have finished, or one was stopped by a
-- failed call or by a store behind the end of its array: the semaphores lead to no deadlock.
pub Reach-IsMoving :
    (n : ℕ) (s : System) (log : List Event)
    → Reach n s log
    → IsMoving s.thread0 s.thread1 s.stripe0 s.stripe1
Reach-IsMoving n s log r =
    let (k, turns) = Reach-Alternates n s log r in
    elim turns [
      | inl (_, t) ↦ Turn-IsMoving n s.now k s.thread0 s.thread1 s.stripe0 s.stripe1 log t
      | inr (_, t) ↦
          swap-IsMoving s.thread1 s.thread0 s.stripe1 s.stripe0
            (Turn-IsMoving n s.now k s.thread1 s.thread0 s.stripe1 s.stripe0 log t)
    ]
