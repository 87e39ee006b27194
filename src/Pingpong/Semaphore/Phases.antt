-- ===== src/Pingpong/Semaphore/Phases.antt =====
-- The phases of an iteration of the two threads of pingpong.c that share semaphores.
use Prim.Native.Nat.{suc}
use osjitter.Prelude.{ℕ, ◌≤◌, ◌<◌, ◌≡◌, true, false, List}
use osjitter.Pingpong.Worker.{Locals}
use osjitter.Pingpong.Rally.{Event, Rally}
use osjitter.Pingpong.Semaphore.{
  Pc, top, taking, timing, storing, giving, loading, loaded, posting, finished, failed, faulted,
  Thread, Stripe,
}

-- a thread between two iterations, or before its `sem_wait` in iteration k
abbrev pub Waits : ℕ → ℕ → Pc → Locals → Type 0
Waits n k top l = l.i ≡ k
Waits n k taking l = (l.i ≡ k) × (k < n)
Waits n k finished l = (l.i ≡ k) × (n ≤ k)
Waits n k failed l = l.i ≡ k
Waits n k _ l = ⊥

-- the sender behind its `sem_wait`
abbrev pub Sends : ℕ → ℕ → Pc → Locals → Type 0
Sends now cell timing l = Unit
Sends now cell (storing t) l = (l.tsc < t) × (t ≤ now)
Sends now cell giving l = (l.tsc < cell) × (cell ≤ now)
Sends now cell failed l = Unit
Sends now cell _ l = ⊥

-- the receiver behind its `sem_wait`
abbrev pub Receives : ℕ → ℕ → Pc → Locals → Type 0
Receives last cell loading l = l.tsc ≤ last
Receives last cell (loaded v) l = (l.tsc ≤ last) × (v ≡ cell)
Receives last cell posting l = (last < l.tsc) × (l.tsc ≡ cell)
Receives last cell failed l = Unit
Receives last cell faulted l = Unit
Receives last cell _ l = ⊥

abbrev pub Free : ℕ → ℕ → Thread → Thread → Stripe → Stripe → Type 0
Free n k s r ss sr =
    (ss.sem ≡ 1)
    × (sr.sem ≡ 0)
    × (k ≤ n)
    × (r.locals.tsc ≤ s.locals.tsc)
    × Waits n k s.pc s.locals
    × Waits n k r.pc r.locals

abbrev pub Held : ℕ → ℕ → ℕ → Thread → Thread → Stripe → Stripe → Type 0
Held n now k s r ss sr =
    (ss.sem ≡ 0)
    × (sr.sem ≡ 0)
    × (r.locals.tsc ≤ s.locals.tsc)
    × (s.locals.i ≡ k)
    × (k < n)
    × Sends now sr.tsc s.pc s.locals
    × Waits n k r.pc r.locals

abbrev pub Given : ℕ → ℕ → ℕ → Thread → Thread → Stripe → Stripe → Type 0
Given n now k s r ss sr =
    (ss.sem ≡ 0)
    × (sr.sem ≡ 1)
    × (r.locals.tsc ≤ s.locals.tsc)
    × (k < n)
    × (s.locals.tsc < sr.tsc)
    × (sr.tsc ≤ now)
    × Waits n (suc k) s.pc s.locals
    × Waits n k r.pc r.locals

abbrev pub Got : ℕ → ℕ → ℕ → Thread → Thread → Stripe → Stripe → Type 0
Got n now k s r ss sr =
    (ss.sem ≡ 0)
    × (sr.sem ≡ 0)
    × (r.locals.i ≡ k)
    × (k < n)
    × (s.locals.tsc < sr.tsc)
    × (sr.tsc ≤ now)
    × Waits n (suc k) s.pc s.locals
    × Receives s.locals.tsc sr.tsc r.pc r.locals

-- the events until the sender has posted: it has sent with its store
abbrev pub HeldLog : ℕ → ℕ → Pc → Locals → List Event → Type 0
HeldLog k cell giving l log = Rally (suc k) cell true log
HeldLog k cell failed l log = Rally (suc k) cell true log
HeldLog k cell _ l log = Rally k l.tsc false log

-- the events until the receiver has posted: it receives with its load
abbrev pub GotLog : ℕ → ℕ → Pc → List Event → Type 0
GotLog k cell loading log = Rally (suc k) cell true log
GotLog k cell _ log = Rally (suc k) cell false log

-- `s` is the sender of iteration k, and `r` its receiver; the events are those of a rally.
pub data Turn (n now : ℕ) (log : List Event) (k : ℕ) (s r : Thread) (ss sr : Stripe) : Type 0 where
  free : Free n k s r ss sr → Rally k s.locals.tsc false log → Turn n now log k s r ss sr
  held : Held n now k s r ss sr → HeldLog k sr.tsc s.pc s.locals log → Turn n now log k s r ss sr
  given : Given n now k s r ss sr → Rally (suc k) sr.tsc true log → Turn n now log k s r ss sr
  taken : Got n now k s r ss sr → GotLog k sr.tsc r.pc log → Turn n now log k s r ss sr
