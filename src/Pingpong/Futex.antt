-- ===== src/Pingpong/Futex.antt =====
-- `futex_main`, `futex_lock` and `futex_unlock` of pingpong.c: two threads, each with a lock word and
-- a cell. A thread locks its own word; to send it stores into the other's cell and unlocks the
-- other's word. A step of a thread is one access of shared memory, one reading of the time-stamp
-- counter or one system call.
pub mod Phases
pub mod Waiting
pub mod Sender
pub mod Receiver
pub mod Order
pub mod Locks
pub mod Refines
mod Examples
pub mod Room
use osjitter.Prelude.{
  ℕ, ◌+◌, ◌-◌, ◌*◌, ◌%◌, ◌≡◌, refl, Bool, true, false, ◌&&◌, not, List, [], ◌∷◌, ◌++◌, Option, none,
  some, arith, ltb, leb, ◌==◌, if◌then◌else◌,
}
use osjitter.Pingpong.Worker.{
  Locals, start, is_sender, next, received, Answer, is_error, is_spurious,
}
use osjitter.Pingpong.Rally.{Event, sent, got}

-- where a thread stands
pub data Pc : Type 0 where
  -- at the head of the loop
  top : Pc
  -- in `futex_lock`: before the exchange, before FUTEX_WAIT, and in it
  locking waiting asleep : Pc
  -- the sender: before `fenced_rdtsc`, before the store of t, and in `futex_unlock` of the other's
  -- word: before the exchange and before FUTEX_WAKE
  timing : Pc
  storing : ℕ → Pc
  giving waking_other : Pc
  -- the receiver: before the load, before `fenced_rdtscp` with the value loaded, and in `futex_unlock`
  -- of its own word
  loading : Pc
  loaded : ℕ → Pc
  unlocking waking : Pc
  -- behind the loop
  finished : Pc
  -- stopped by a failed system call
  failed : Pc
  -- stopped by a store behind the end of `ds`
  faulted : Pc
  -- stopped by `abort`: unexpectedly unlocked
  aborted : Pc

pub record Thread : Type 0 where
  pub pc : Pc
  pub locals : Locals

-- what a thread shares: the elements of `g_follicle`
pub record Follicle : Type 0 where
  pub futex : ℕ
  pub tsc : ℕ

-- A thread after a step, with both follicles, and whether the other thread is woken.
pub record Moved : Type 0 where
  pub thread : Thread
  pub own : Follicle
  pub other : Follicle
  pub wakes : Bool

abbrev at : Pc → Locals → Follicle → Follicle → Moved
at pc l own other = record {
  thread = record { pc = pc; locals = l };
  own = own;
  other = other;
  wakes = false;
}

-- the weak compare-and-exchange of `futex_lock`
abbrev pub can_lock : Answer → Follicle → Bool
can_lock a f = not (is_spurious a) && f.futex == 0

-- the strong one of `futex_unlock`
abbrev pub can_unlock : Follicle → Bool
can_unlock f = f.futex == 1

abbrev record_delta : Option Locals → Locals → Follicle → Follicle → Moved
record_delta none l own other = at faulted l own other
record_delta (some l') l own other = at unlocking l' own other

-- One step of thread `init`, when the counter shows `now`.
unfoldable pub move : ℕ → ℕ → ℕ → Answer → Pc → Locals → Follicle → Follicle → Moved
unfolding received
move n init now a top l own other =
    if ltb l.i n then at locking l own other else at finished l own other
move n init now a locking l own other =
    if can_lock a own
    then at (if is_sender init l.i then timing else loading) l (record own { futex = 1 }) other
    else at waiting l own other
move n init now a waiting l own other =
    if is_error a
    then at failed l own other
    else if own.futex == 1
    then at asleep l own other
    else at locking l own other
move n init now a asleep l own other =
    if is_error a
    then at failed l own other
    else if is_spurious a
    then at locking l own other
    else at asleep l own other
move n init now a timing l own other =
    if leb now l.tsc then at timing l own other else at (storing now) l own other
move n init now a (storing t) l own other = at giving l own (record other { tsc = t })
move n init now a giving l own other =
    if can_unlock other
    then at waking_other l own (record other { futex = 0 })
    else at aborted l own other
move n init now a waking_other l own other =
    if is_error a
    then at failed l own other
    else record (at top (next l) own other) { wakes = true }
move n init now a loading l own other = at (loaded own.tsc) l own other
move n init now a (loaded v) l own other = record_delta (received n now v l) l own other
move n init now a unlocking l own other =
    if can_unlock own then at waking l (record own { futex = 0 }) other else at aborted l own other
move n init now a waking l own other =
    if is_error a then at failed l own other else at top (next l) own other
move n init now a pc l own other = at pc l own other

-- what a step from one place to another has done
abbrev pub event_of : ℕ → Pc → Pc → List Event
event_of init (storing t) giving = sent init t ∷ []
event_of init loading (loaded t) = got init t ∷ []
event_of init _ _ = []

-- FUTEX_WAKE on the word that a thread sleeps on: it goes round the loop of `futex_lock`.
abbrev pub wake : Bool → Pc → Pc
wake true asleep = locking
wake _ pc = pc

abbrev pub woken : Bool → Thread → Thread
woken b th = record th { pc = wake b th.pc }

pub record System : Type 0 where
  pub thread0 : Thread
  pub thread1 : Thread
  pub follicle0 : Follicle
  pub follicle1 : Follicle
  pub now : ℕ

-- `g_follicle[i].futex = i`
abbrev pub initial : ℕ → ℕ → System
initial n now = record {
  thread0 = record { pc = top; locals = start n };
  thread1 = record { pc = top; locals = start n };
  follicle0 = record { futex = 0; tsc = 0 };
  follicle1 = record { futex = 1; tsc = 0 };
  now = now;
}

abbrev pub moved0 : ℕ → Answer → System → Moved
moved0 n a s = move n 0 s.now a s.thread0.pc s.thread0.locals s.follicle0 s.follicle1

abbrev pub moved1 : ℕ → Answer → System → Moved
moved1 n a s = move n 1 s.now a s.thread1.pc s.thread1.locals s.follicle1 s.follicle0

abbrev pub move0 : ℕ → Answer → System → System
move0 n a s =
    let m = moved0 n a s in
    record s {
      thread0 = m.thread;
      thread1 = woken m.wakes s.thread1;
      follicle0 = m.own;
      follicle1 = m.other;
    }

abbrev pub move1 : ℕ → Answer → System → System
move1 n a s =
    let m = moved1 n a s in
    record s {
      thread1 = m.thread;
      thread0 = woken m.wakes s.thread0;
      follicle1 = m.own;
      follicle0 = m.other;
    }

-- A step of either thread, or of the counter.
pub data Step (n : ℕ) : System → System → Type 0 where
  first : {s : System} → (a : Answer) → Step n s (move0 n a s)
  second : {s : System} → (a : Answer) → Step n s (move1 n a s)
  tick : {s : System} → (d : ℕ) → Step n s (record s { now = s.now + d })

-- the events of a step, before those of an earlier one
abbrev pub logged : (n : ℕ) {s s' : System} → Step n s s' → List Event → List Event
logged n {s} (first a) log = event_of 0 s.thread0.pc (moved0 n a s).thread.pc ++ log
logged n {s} (second a) log = event_of 1 s.thread1.pc (moved1 n a s).thread.pc ++ log
logged n (tick d) log = log

-- the states of the runs, each with the events of its run, the latest first
pub data Reach (n : ℕ) : System → List Event → Type 0 where
  started : (now : ℕ) → Reach n (initial n now) []
  stepped :
      {s s' : System} {log : List Event}
      → Reach n s log
      → (step : Step n s s') → Reach n s' (logged n step log)
