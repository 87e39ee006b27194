-- ===== src/Pingpong/Condvar.antt =====
-- `cv_main` of pingpong.c: two threads, each with an item, which has a mutex, a condition variable and
-- a time. To send, a thread stores into the other's item under its mutex, and signals its condition
-- variable; to receive, it waits on its own. A step of a thread is one access of shared memory, one
-- reading of the time-stamp counter or one call, which may fail.
pub mod Phases
pub mod Sender
pub mod Receiver
pub mod Refines
pub mod Races
pub mod Progress
mod Examples
use osjitter.Prelude.{
  ℕ, ◌+◌, ◌-◌, ◌≡◌, refl, Bool, true, false, not, ◌&&◌, List, [], ◌∷◌, ◌++◌, Option, none, some,
  arith, ltb, leb, ◌==◌, if◌then◌else◌,
}
use osjitter.Pingpong.Worker.{
  Locals, start, is_sender, next, received, Answer, is_error, is_spurious,
}
use osjitter.Pingpong.Rally.{Event, sent, got}

-- where a thread stands
pub data Pc : Type 0 where
  -- at the head of the loop
  top : Pc
  -- the sender: before `fenced_rdtsc`, before it locks the mutex, before the store of t, before it
  -- unlocks the mutex, and before `pthread_cond_signal`
  timing : Pc
  acquiring : ℕ → Pc
  storing : ℕ → Pc
  releasing : Pc
  signalling : Pc
  -- the receiver: before it locks the mutex, before the test of the loop, before `pthread_cond_wait`,
  -- in it, in it before it has the mutex again, before the load behind the loop, before it unlocks the
  -- mutex, and before `fenced_rdtscp` with the time loaded
  locking : Pc
  testing : Pc
  blocking : Pc
  waiting : Pc
  relocking : Pc
  loading : Pc
  unlocking : ℕ → Pc
  loaded : ℕ → Pc
  -- behind the loop
  finished : Pc
  -- stopped by a failed call
  failed : Pc
  -- stopped by a store behind the end of `ds`
  faulted : Pc

pub record Thread : Type 0 where
  pub pc : Pc
  pub locals : Locals

-- `struct Item`; `waits` says that a thread waits on the condition variable.
pub record Item : Type 0 where
  pub locked : Bool
  pub tsc : ℕ
  pub waits : Bool

-- a thread after a step, with both items
pub record Moved : Type 0 where
  pub thread : Thread
  pub own : Item
  pub other : Item

abbrev pub at : Pc → Locals → Item → Item → Moved
at pc l own other = record { thread = record { pc = pc; locals = l }; own = own; other = other }

abbrev record_delta : Option Locals → Locals → Item → Item → Moved
record_delta none l own other = at faulted l own other
record_delta (some l') l own other = at top (next l') own other

-- a call that may fail
abbrev unless_error : Answer → Locals → Item → Item → Moved → Moved
unless_error a l own other m = if is_error a then at failed l own other else m

-- One step of thread `init`, when the counter shows `now`. A wait may end without a signal. Where a
-- mutex is locked, the call to lock it goes on.
unfoldable pub move : ℕ → ℕ → ℕ → Answer → Pc → Locals → Item → Item → Moved
unfolding received
move n init now a top l own other =
    if ltb l.i n
    then at (if is_sender init l.i then timing else locking) l own other
    else at finished l own other
move n init now a timing l own other =
    if leb now l.tsc then at timing l own other else at (acquiring now) l own other
move n init now a (acquiring t) l own other = unless_error a l own other (
    if other.locked
    then at (acquiring t) l own other
    else at (storing t) l own (record other { locked = true }))
move n init now a (storing t) l own other = at releasing l own (record other { tsc = t })
move n init now a releasing l own other =
    unless_error a l own other (at signalling l own (record other { locked = false }))
move n init now a signalling l own other =
    unless_error a l own other (at top (next l) own (record other { waits = false }))
move n init now a locking l own other = unless_error a l own other (
    if own.locked
    then at locking l own other
    else at testing l (record own { locked = true }) other)
move n init now a testing l own other =
    if leb own.tsc l.tsc then at blocking l own other else at loading l own other
move n init now a blocking l own other =
    unless_error a l own other (at waiting l (record own { locked = false; waits = true }) other)
move n init now a waiting l own other =
    if own.waits && not (is_spurious a)
    then at waiting l own other
    else at relocking l (record own { waits = false }) other
move n init now a relocking l own other =
    if own.locked
    then at relocking l own other
    else at testing l (record own { locked = true }) other
move n init now a loading l own other = at (unlocking own.tsc) l own other
move n init now a (unlocking v) l own other =
    unless_error a l own other (at (loaded v) l (record own { locked = false }) other)
move n init now a (loaded v) l own other = record_delta (received n now v l) l own other
move n init now a pc l own other = at pc l own other

-- what a step from one place to another has done
abbrev pub event_of : ℕ → Pc → Pc → List Event
event_of init (storing t) releasing = sent init t ∷ []
event_of init loading (unlocking t) = got init t ∷ []
event_of init _ _ = []

pub record System : Type 0 where
  pub thread0 : Thread
  pub thread1 : Thread
  pub item0 : Item
  pub item1 : Item
  pub now : ℕ

abbrev idle : Item
idle = record { locked = false; tsc = 0; waits = false }

abbrev pub initial : ℕ → ℕ → System
initial n now = record {
  thread0 = record { pc = top; locals = start n };
  thread1 = record { pc = top; locals = start n };
  item0 = idle;
  item1 = idle;
  now = now;
}

abbrev pub moved0 : ℕ → Answer → System → Moved
moved0 n a s = move n 0 s.now a s.thread0.pc s.thread0.locals s.item0 s.item1

abbrev pub moved1 : ℕ → Answer → System → Moved
moved1 n a s = move n 1 s.now a s.thread1.pc s.thread1.locals s.item1 s.item0

abbrev pub move0 : ℕ → Answer → System → System
move0 n a s =
    let m = moved0 n a s in record s { thread0 = m.thread; item0 = m.own; item1 = m.other }

abbrev pub move1 : ℕ → Answer → System → System
move1 n a s =
    let m = moved1 n a s in record s { thread1 = m.thread; item1 = m.own; item0 = m.other }

-- A step of either thread, or of the counter.
pub data Step (n : ℕ) : System → System → Type 0 where
  first : {s : System} → (a : Answer) → Step n s (move0 n a s)
  second : {s : System} → (a : Answer) → Step n s (move1 n a s)
  tick : {s : System} → (d : ℕ) → Step n s (record s { now = s.now + d })

-- the events of a step, before those of an earlier one
abbrev pub logged : (n : ℕ) {s s' : System} → Step n s s' → List Event → List Event
logged n {s} (first a) log = event_of 0 s.thread0.pc (moved0 n a s).thread.pc ++ log
logged n {s} (second a) log = event_of 1 s.thread1.pc (moved1 n a s).thread.pc ++ log
logged n (tick d) log = log

-- the states of the runs, each with the events of its run, the latest first
pub data Reach (n : ℕ) : System → List Event → Type 0 where
  started : (now : ℕ) → Reach n (initial n now) []
  stepped :
      {s s' : System} {log : List Event}
      → Reach n s log
      → (step : Step n s s') → Reach n s' (logged n step log)
