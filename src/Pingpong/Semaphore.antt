-- ===== src/Pingpong/Semaphore.antt =====
-- `semaphore_main` of pingpong.c: two threads, each with a POSIX semaphore and a cell. A thread waits
-- for its own semaphore; to send it stores into the other's cell and posts the other's semaphore. A
-- step of a thread is one access of shared memory, one reading of the time-stamp counter or one call,
-- which may fail.
pub mod Phases
pub mod Steps
pub mod Order
pub mod Refines
pub mod Progress
mod Examples
use osjitter.Prelude.{
  ℕ, ◌+◌, ◌-◌, ◌≡◌, refl, Bool, true, false, List, [], ◌∷◌, ◌++◌, Option, none, some, arith, ltb,
  leb, ◌==◌, if◌then◌else◌,
}
use osjitter.Pingpong.Worker.{Locals, start, is_sender, next, received}
use osjitter.Pingpong.Rally.{Event, sent, got}

-- where a thread stands
pub data Pc : Type 0 where
  -- at the head of the loop
  top : Pc
  -- in `sem_wait`
  taking : Pc
  -- the sender: before `fenced_rdtsc`, before the store of t, and before `sem_post`
  timing : Pc
  storing : ℕ → Pc
  giving : Pc
  -- the receiver: before the load, before `fenced_rdtscp` with the value loaded, and before `sem_post`
  loading : Pc
  loaded : ℕ → Pc
  posting : Pc
  -- behind the loop
  finished : Pc
  -- stopped by a failed `sem_wait` or `sem_post`
  failed : Pc
  -- stopped by a store behind the end of `ds`
  faulted : Pc

pub record Thread : Type 0 where
  pub pc : Pc
  pub locals : Locals

-- `struct Stripe`
pub record Stripe : Type 0 where
  pub sem : ℕ
  pub tsc : ℕ

-- a thread after a step, with both stripes
pub record Moved : Type 0 where
  pub thread : Thread
  pub own : Stripe
  pub other : Stripe

abbrev at : Pc → Locals → Stripe → Stripe → Moved
at pc l own other = record { thread = record { pc = pc; locals = l }; own = own; other = other }

abbrev post : Stripe → Stripe
post s = record s { sem = s.sem + 1 }

abbrev record_delta : Option Locals → Locals → Stripe → Stripe → Moved
record_delta none l own other = at faulted l own other
record_delta (some l') l own other = at posting l' own other

-- One step of thread `init`, when the counter shows `now`. A call succeeds if `ok`.
unfoldable pub move : ℕ → ℕ → ℕ → Bool → Pc → Locals → Stripe → Stripe → Moved
unfolding received
move n init now ok top l own other =
    if ltb l.i n then at taking l own other else at finished l own other
move n init now true taking l own other =
    if own.sem == 0
    then at taking l own other
    else at (if is_sender init l.i then timing else loading) l (record own { sem = own.sem - 1 })
        other
move n init now false taking l own other = at failed l own other
move n init now ok timing l own other =
    if leb now l.tsc then at timing l own other else at (storing now) l own other
move n init now ok (storing t) l own other = at giving l own (record other { tsc = t })
move n init now true giving l own other = at top (next l) own (post other)
move n init now false giving l own other = at failed l own other
move n init now ok loading l own other = at (loaded own.tsc) l own other
move n init now ok (loaded v) l own other = record_delta (received n now v l) l own other
move n init now true posting l own other = at top (next l) (post own) other
move n init now false posting l own other = at failed l own other
move n init now ok pc l own other = at pc l own other

-- what a step from one place to another has done
abbrev pub event_of : ℕ → Pc → Pc → List Event
event_of init (storing t) giving = sent init t ∷ []
event_of init loading (loaded t) = got init t ∷ []
event_of init _ _ = []

pub record System : Type 0 where
  pub thread0 : Thread
  pub thread1 : Thread
  pub stripe0 : Stripe
  pub stripe1 : Stripe
  pub now : ℕ

-- `sem_init(&g_stripe[i].sem, 0, !i)`
abbrev pub initial : ℕ → ℕ → System
initial n now = record {
  thread0 = record { pc = top; locals = start n };
  thread1 = record { pc = top; locals = start n };
  stripe0 = record { sem = 1; tsc = 0 };
  stripe1 = record { sem = 0; tsc = 0 };
  now = now;
}

abbrev pub moved0 : ℕ → Bool → System → Moved
moved0 n ok s = move n 0 s.now ok s.thread0.pc s.thread0.locals s.stripe0 s.stripe1

abbrev pub moved1 : ℕ → Bool → System → Moved
moved1 n ok s = move n 1 s.now ok s.thread1.pc s.thread1.locals s.stripe1 s.stripe0

abbrev pub move0 : ℕ → Bool → System → System
move0 n ok s =
    let m = moved0 n ok s in record s { thread0 = m.thread; stripe0 = m.own; stripe1 = m.other }

abbrev pub move1 : ℕ → Bool → System → System
move1 n ok s =
    let m = moved1 n ok s in record s { thread1 = m.thread; stripe1 = m.own; stripe0 = m.other }

-- A step of either thread, or of the counter.
pub data Step (n : ℕ) : System → System → Type 0 where
  first : {s : System} → (ok : Bool) → Step n s (move0 n ok s)
  second : {s : System} → (ok : Bool) → Step n s (move1 n ok s)
  tick : {s : System} → (d : ℕ) → Step n s (record s { now = s.now + d })

-- the events of a step, before those of an earlier one
abbrev pub logged : (n : ℕ) {s s' : System} → Step n s s' → List Event → List Event
logged n {s} (first ok) log = event_of 0 s.thread0.pc (moved0 n ok s).thread.pc ++ log
logged n {s} (second ok) log = event_of 1 s.thread1.pc (moved1 n ok s).thread.pc ++ log
logged n (tick d) log = log

-- the states of the runs, each with the events of its run, the latest first
pub data Reach (n : ℕ) : System → List Event → Type 0 where
  started : (now : ℕ) → Reach n (initial n now) []
  stepped :
      {s s' : System} {log : List Event}
      → Reach n s log
      → (step : Step n s s') → Reach n s' (logged n step log)
