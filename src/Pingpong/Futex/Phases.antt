-- ===== src/Pingpong/Futex/Phases.antt =====
-- The phases of an iteration of the two threads of pingpong.c that share futexes.
use Prim.Native.Nat.{suc}
use osjitter.Prelude.{ℕ, ◌+◌, ◌≤◌, ◌<◌, ◌≡◌, Bool, true, false, List}
use osjitter.Pingpong.Worker.{Locals}
use osjitter.Pingpong.Rally.{Event, Rally}
use osjitter.Pingpong.Futex.{
  Pc, top, locking, waiting, asleep, timing, storing, giving, waking_other, loading, loaded,
  unlocking, waking, finished, failed, faulted, Thread, Follicle,
}

-- the sender of iteration k, before it locks its word
abbrev pub IsFree : ℕ → ℕ → Pc → Locals → Type 0
IsFree n k top l = l.i ≡ k
IsFree n k locking l = (l.i ≡ k) × (k < n)
IsFree n k waiting l = (l.i ≡ k) × (k < n)
IsFree n k finished l = (l.i ≡ k) × (n ≤ k)
IsFree n k failed l = Unit
IsFree n k waking l = (l.i + 1 ≡ k) × (k ≤ n)
IsFree n k _ l = ⊥

-- a thread whose word stays locked until the other one unlocks it in iteration k
abbrev pub IsLockedOut : ℕ → ℕ → Pc → Locals → Type 0
IsLockedOut n k top l = l.i ≡ k
IsLockedOut n k locking l = (l.i ≡ k) × (k < n)
IsLockedOut n k waiting l = (l.i ≡ k) × (k < n)
IsLockedOut n k asleep l = (l.i ≡ k) × (k < n)
IsLockedOut n k finished l = (l.i ≡ k) × (n ≤ k)
IsLockedOut n k failed l = Unit
IsLockedOut n k waking_other l = (l.i + 1 ≡ k) × (k ≤ n)
IsLockedOut n k _ l = ⊥

-- the sender, with its word locked
abbrev pub Sends : ℕ → ℕ → Pc → Locals → Type 0
Sends now cell timing l = Unit
Sends now cell (storing t) l = (l.tsc < t) × (t ≤ now)
Sends now cell giving l = (l.tsc < cell) × (cell ≤ now)
Sends now cell _ l = ⊥

-- where a sender stands that has unlocked the word and not woken the receiver, nor gone on
abbrev pub has_unlocked : Pc → Bool
has_unlocked waking_other = true
has_unlocked failed = true
has_unlocked _ = false

-- The receiver, with its word unlocked; where it sleeps the sender is about to wake it, or has failed.
abbrev pub CanReceive : ℕ → Pc → Pc → Locals → Type 0
CanReceive k sender top l = l.i ≡ k
CanReceive k sender locking l = l.i ≡ k
CanReceive k sender waiting l = l.i ≡ k
CanReceive k sender asleep l = (l.i ≡ k) × (has_unlocked sender ≡ true)
CanReceive k sender failed l = Unit
CanReceive k sender waking_other l = l.i + 1 ≡ k
CanReceive k sender _ l = ⊥

-- the receiver, with its word locked
abbrev pub Receives : ℕ → ℕ → Pc → Locals → Type 0
Receives last cell loading l = l.tsc ≤ last
Receives last cell (loaded v) l = (l.tsc ≤ last) × (v ≡ cell)
Receives last cell unlocking l = (last < l.tsc) × (l.tsc ≡ cell)
Receives last cell faulted l = Unit
Receives last cell _ l = ⊥

abbrev pub Free : ℕ → ℕ → Thread → Thread → Follicle → Follicle → Type 0
Free n k s r fs fr =
    (fs.futex ≡ 0)
    × (fr.futex ≡ 1)
    × (k ≤ n)
    × (r.locals.tsc ≤ s.locals.tsc)
    × IsFree n k s.pc s.locals
    × IsLockedOut n k r.pc r.locals

abbrev pub Held : ℕ → ℕ → ℕ → Thread → Thread → Follicle → Follicle → Type 0
Held n now k s r fs fr =
    (fs.futex ≡ 1)
    × (fr.futex ≡ 1)
    × (r.locals.tsc ≤ s.locals.tsc)
    × (s.locals.i ≡ k)
    × (k < n)
    × Sends now fr.tsc s.pc s.locals
    × IsLockedOut n k r.pc r.locals

abbrev pub Given : ℕ → ℕ → ℕ → Thread → Thread → Follicle → Follicle → Type 0
Given n now k s r fs fr =
    (fs.futex ≡ 1)
    × (fr.futex ≡ 0)
    × (r.locals.tsc ≤ s.locals.tsc)
    × (k < n)
    × (s.locals.tsc < fr.tsc)
    × (fr.tsc ≤ now)
    × IsLockedOut n (suc k) s.pc s.locals
    × CanReceive k s.pc r.pc r.locals

abbrev pub Got : ℕ → ℕ → ℕ → Thread → Thread → Follicle → Follicle → Type 0
Got n now k s r fs fr =
    (fs.futex ≡ 1)
    × (fr.futex ≡ 1)
    × (r.locals.i ≡ k)
    × (k < n)
    × (s.locals.tsc < fr.tsc)
    × (fr.tsc ≤ now)
    × IsLockedOut n (suc k) s.pc s.locals
    × Receives s.locals.tsc fr.tsc r.pc r.locals

-- the events until the sender has unlocked the receiver's word: it has sent with its store
abbrev pub HeldLog : ℕ → ℕ → Pc → Locals → List Event → Type 0
HeldLog k cell giving l log = Rally (suc k) cell true log
HeldLog k cell _ l log = Rally k l.tsc false log

-- the events until the receiver has unlocked its word: it receives with its load
abbrev pub GotLog : ℕ → ℕ → Pc → List Event → Type 0
GotLog k cell loading log = Rally (suc k) cell true log
GotLog k cell _ log = Rally (suc k) cell false log

-- `s` is the sender of iteration k, and `r` its receiver; the events are those of a rally.
pub data Turn (n now : ℕ) (log : List Event) (k : ℕ) (s r : Thread) (fs fr : Follicle)
    : Type 0 where
  free : Free n k s r fs fr → Rally k s.locals.tsc false log → Turn n now log k s r fs fr
  held : Held n now k s r fs fr → HeldLog k fr.tsc s.pc s.locals log → Turn n now log k s r fs fr
  given : Given n now k s r fs fr → Rally (suc k) fr.tsc true log → Turn n now log k s r fs fr
  taken : Got n now k s r fs fr → GotLog k fr.tsc r.pc log → Turn n now log k s r fs fr
