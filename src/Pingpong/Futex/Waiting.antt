-- ===== src/Pingpong/Futex/Waiting.antt =====
-- What the steps of one of the two threads of pingpong.c that share futexes leave as it is: a wake
-- changes at most the place of a sleeping thread, and a thread that is locked out its own.
use osjitter.Prelude.{
  ℕ, ◌<◌, ◌≡◌, ◌⊎◌, inl, inr, refl, Bool, true, false, List, [], arith, ltb, ◌==◌, Bool-cases,
}
use osjitter.Pingpong.Worker.{Answer, is_error, is_spurious, Locals}
use osjitter.Pingpong.Rally.{Event}
use osjitter.Pingpong.Futex.{
  Pc, top, locking, waiting, asleep, timing, storing, giving, waking_other, loading, loaded,
  unlocking, waking, finished, failed, faulted, Follicle, can_lock, move, wake, event_of,
}
use osjitter.Pingpong.Futex.Phases.{
  IsFree, Sends, IsLockedOut, CanReceive, has_unlocked, Receives, HeldLog, GotLog,
}

-- Once the word is unlocked, the receiver can go on.
pub can_receive :
    (n k : ℕ) (pc : Pc) (l : Locals) → k < n → IsLockedOut n k pc l → CanReceive k waking_other pc l
can_receive n k top l more h = h
can_receive n k locking l more h = h.0
can_receive n k waiting l more h = h.0
can_receive n k asleep l more h = (h.0, refl)
can_receive n k waking_other l more h = h.0
can_receive n k failed l more h = h
can_receive n k finished l more h = absurd (omega arith)
can_receive n k _ l more h = ground arith

pub CanReceive-wake :
    (k : ℕ) (sender sender' pc : Pc) (l : Locals)
    → CanReceive k sender pc l
    → CanReceive k sender' (wake true pc) l
CanReceive-wake k sender sender' asleep l h = h.0
CanReceive-wake k sender sender' top l h = h
CanReceive-wake k sender sender' locking l h = h
CanReceive-wake k sender sender' waiting l h = h
CanReceive-wake k sender sender' waking_other l h = h
CanReceive-wake k sender sender' failed l h = h
CanReceive-wake k sender sender' _ l h = ground arith

pub CanReceive-no_wake :
    (k : ℕ) (sender sender' pc : Pc) (l : Locals)
    → (has_unlocked sender ≡ true → has_unlocked sender' ≡ true)
    → CanReceive k sender pc l
    → CanReceive k sender' pc l
CanReceive-no_wake k sender sender' asleep l stays h = (h.0, stays h.1)
CanReceive-no_wake k sender sender' top l stays h = h
CanReceive-no_wake k sender sender' locking l stays h = h
CanReceive-no_wake k sender sender' waiting l stays h = h
CanReceive-no_wake k sender sender' waking_other l stays h = h
CanReceive-no_wake k sender sender' failed l stays h = h
CanReceive-no_wake k sender sender' _ l stays h = ground arith

pub Receives-wake :
    (last cell : ℕ) (b : Bool) (pc : Pc) (l : Locals)
    → Receives last cell pc l
    → Receives last cell (wake b pc) l
Receives-wake last cell true loading l h = h
Receives-wake last cell true (loaded v) l h = h
Receives-wake last cell true unlocking l h = h
Receives-wake last cell true faulted l h = h
Receives-wake last cell false pc l h = h
Receives-wake last cell true _ l h = ground arith

pub GotLog-wake :
    (k cell : ℕ) (b : Bool) (pc : Pc) (log : List Event)
    → GotLog k cell pc log
    → GotLog k cell (wake b pc) log
GotLog-wake k cell true asleep log h = h
GotLog-wake k cell false pc log h = h
GotLog-wake k cell true pc log h = h

pub IsFree-wake :
    (n k : ℕ) (b : Bool) (pc : Pc) (l : Locals) → IsFree n k pc l → IsFree n k (wake b pc) l
IsFree-wake n k false pc l h = h
IsFree-wake n k true top l h = h
IsFree-wake n k true locking l h = h
IsFree-wake n k true waiting l h = h
IsFree-wake n k true finished l h = h
IsFree-wake n k true waking l h = h
IsFree-wake n k true failed l h = h
IsFree-wake n k true _ l h = ground arith

pub Sends-wake :
    (now cell : ℕ) (b : Bool) (pc : Pc) (l : Locals)
    → Sends now cell pc l
    → Sends now cell (wake b pc) l
Sends-wake now cell false pc l h = h
Sends-wake now cell true timing l h = h
Sends-wake now cell true (storing t) l h = h
Sends-wake now cell true giving l h = h
Sends-wake now cell true _ l h = ground arith

pub IsLockedOut-wake :
    (n k : ℕ) (pc : Pc) (l : Locals) → IsLockedOut n k pc l → IsLockedOut n k (wake true pc) l
IsLockedOut-wake n k top l h = h
IsLockedOut-wake n k locking l h = h
IsLockedOut-wake n k waiting l h = h
IsLockedOut-wake n k asleep l h = h
IsLockedOut-wake n k finished l h = h
IsLockedOut-wake n k waking_other l h = h
IsLockedOut-wake n k failed l h = h
IsLockedOut-wake n k _ l h = ground arith

pub HeldLog-wake :
    (k cell : ℕ) (b : Bool) (pc : Pc) (l : Locals) (log : List Event)
    → HeldLog k cell pc l log
    → HeldLog k cell (wake b pc) l log
HeldLog-wake k cell true asleep l log h = h
HeldLog-wake k cell false pc l log h = h
HeldLog-wake k cell true pc l log h = h

-- A thread that is locked out changes nothing, but may wake the other one.
pub IsLockedOut-move :
    (n now k init : ℕ) (a : Answer) (pc : Pc) (l : Locals) (own other : Follicle)
    → own.futex ≡ 1
    → IsLockedOut n k pc l
    → let m = move n init now a pc l own other in
      IsLockedOut n k m.thread.pc m.thread.locals
      × (m.thread.locals.tsc ≡ l.tsc)
      × (m.own ≡ own)
      × (m.other ≡ other)
      × ((m.wakes ≡ true)
          ⊎ ((m.wakes ≡ false) × (has_unlocked pc ≡ true → has_unlocked m.thread.pc ≡ true)))
      × (event_of init pc m.thread.pc ≡ [])
unfolding move
IsLockedOut-move n now k init a top l own other shut h = elim (Bool-cases (ltb l.i n)) [
  | inl more ↦ rw more (ground (arith, more), refl, refl, refl, inr (refl, λ e. cc), refl)
  | inr over ↦ rw over (ground (arith, over), refl, refl, refl, inr (refl, λ e. cc), refl)
]
IsLockedOut-move n now k init a locking l own other shut h =
    let fails : can_lock a own ≡ false = ground arith in
    rw fails (h, refl, refl, refl, inr (refl, λ e. cc), refl)
IsLockedOut-move n now k init a waiting l own other shut h = elim (Bool-cases (is_error a)) [
  | inl bad ↦ rw bad (tt, refl, refl, refl, inr (refl, λ e. cc), refl)
  | inr good ↦
      let sleeps : (own.futex == 1) ≡ true = ground arith in
      rw (good, sleeps) (h, refl, refl, refl, inr (refl, λ e. cc), refl)
]
IsLockedOut-move n now k init a waking_other l own other shut h = elim (Bool-cases (is_error a)) [
  | inl bad ↦ rw bad (tt, refl, refl, refl, inr (refl, λ e. refl), refl)
  | inr good ↦ rw good (ground arith, refl, refl, refl, inl refl, refl)
]
IsLockedOut-move n now k init a asleep l own other shut h = elim (Bool-cases (is_error a)) [
  | inl bad ↦ rw bad (tt, refl, refl, refl, inr (refl, λ e. cc), refl)
  | inr good ↦ elim (Bool-cases (is_spurious a)) [
    | inl soon ↦ rw (good, soon) (h, refl, refl, refl, inr (refl, λ e. cc), refl)
    | inr late ↦ rw (good, late) (h, refl, refl, refl, inr (refl, λ e. cc), refl)
  ]
]
IsLockedOut-move n now k init a finished l own other shut h =
    (h, refl, refl, refl, inr (refl, λ e. cc), refl)
IsLockedOut-move n now k init a failed l own other shut h =
    (tt, refl, refl, refl, inr (refl, λ e. refl), refl)
IsLockedOut-move n now k init a _ l own other shut h = ground arith
