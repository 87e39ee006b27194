-- ===== src/Pingpong/Pipe.antt =====
-- `pipe_main` of pingpong.c: two threads, each with a pipe from which it reads. A message is the 8
-- bytes of a reading of the counter, which a pipe takes and gives as a whole. A step of a thread is one
-- reading of the time-stamp counter or one system call, which may fail.
pub mod Phases
pub mod Refines
pub mod Progress
pub mod Effort
pub mod Ends
mod Examples
use osjitter.Prelude.{
  ℕ, ◌+◌, ◌-◌, ◌≡◌, refl, Bool, true, false, not, List, [], ◌∷◌, ◌++◌, Option, none, some, arith,
  ltb, leb, ◌==◌, if◌then◌else◌,
}
use osjitter.Pingpong.Worker.{Locals, start, is_sender, next, received}
use osjitter.Pingpong.Rally.{Event, sent, got}

-- where a thread stands
pub data Pc : Type 0 where
  -- at the head of the loop
  top : Pc
  -- the sender: before `fenced_rdtsc`, and before `write`
  timing : Pc
  writing : ℕ → Pc
  -- the receiver: before `read`, and before `fenced_rdtscp` with the time read
  reading : Pc
  loaded : ℕ → Pc
  -- behind the loop
  finished : Pc
  -- a call has failed, and the thread returns NULL
  failed : Pc
  -- stopped by a store behind the end of `ds`
  faulted : Pc

pub record Thread : Type 0 where
  pub pc : Pc
  pub locals : Locals

-- a thread after a step, with what its own pipe and the other's hold
pub record Moved : Type 0 where
  pub thread : Thread
  pub own : List ℕ
  pub other : List ℕ

abbrev at : Pc → Locals → List ℕ → List ℕ → Moved
at pc l own other = record { thread = record { pc = pc; locals = l }; own = own; other = other }

abbrev record_delta : Option Locals → Locals → List ℕ → List ℕ → Moved
record_delta none l own other = at faulted l own other
record_delta (some l') l own other = at top (next l') own other

-- `read` of 8 bytes, which waits while the pipe is empty
abbrev read : Bool → Locals → List ℕ → List ℕ → Moved
read ok l [] other = if ok then at reading l [] other else at failed l [] other
read ok l (t ∷ own) other = if ok then at (loaded t) l own other else at failed l (t ∷ own) other

-- One step of thread `init`, when the counter shows `now`. A system call fails unless `ok`: it returns
-- -1, and nothing is written or read.
unfoldable pub move : ℕ → ℕ → ℕ → Bool → Pc → Locals → List ℕ → List ℕ → Moved
unfolding received
move n init now ok top l own other =
    if ltb l.i n
    then at (if is_sender init l.i then timing else reading) l own other
    else at finished l own other
move n init now ok timing l own other =
    if leb now l.tsc then at timing l own other else at (writing now) l own other
move n init now ok (writing t) l own other =
    if ok then at top (next l) own (other ++ t ∷ []) else at failed l own other
move n init now ok reading l own other = read ok l own other
move n init now ok (loaded v) l own other = record_delta (received n now v l) l own other
move n init now ok pc l own other = at pc l own other

-- what a step from one place to another has done
abbrev pub event_of : ℕ → Pc → Pc → List Event
event_of init (writing t) top = sent init t ∷ []
event_of init reading (loaded t) = got init t ∷ []
event_of init _ _ = []

pub record System : Type 0 where
  pub thread0 : Thread
  pub thread1 : Thread
  pub pipe0 : List ℕ
  pub pipe1 : List ℕ
  pub now : ℕ

abbrev pub initial : ℕ → ℕ → System
initial n now = record {
  thread0 = record { pc = top; locals = start n };
  thread1 = record { pc = top; locals = start n };
  pipe0 = [];
  pipe1 = [];
  now = now;
}

abbrev pub moved0 : ℕ → Bool → System → Moved
moved0 n ok s = move n 0 s.now ok s.thread0.pc s.thread0.locals s.pipe0 s.pipe1

abbrev pub moved1 : ℕ → Bool → System → Moved
moved1 n ok s = move n 1 s.now ok s.thread1.pc s.thread1.locals s.pipe1 s.pipe0

abbrev pub move0 : ℕ → Bool → System → System
move0 n ok s =
    let m = moved0 n ok s in record s { thread0 = m.thread; pipe0 = m.own; pipe1 = m.other }

abbrev pub move1 : ℕ → Bool → System → System
move1 n ok s =
    let m = moved1 n ok s in record s { thread1 = m.thread; pipe1 = m.own; pipe0 = m.other }

-- A step of either thread, or of the counter.
pub data Step (n : ℕ) : System → System → Type 0 where
  first : {s : System} → (ok : Bool) → Step n s (move0 n ok s)
  second : {s : System} → (ok : Bool) → Step n s (move1 n ok s)
  tick : {s : System} → (d : ℕ) → Step n s (record s { now = s.now + d })

-- the events of a step, before those of an earlier one
abbrev pub logged : (n : ℕ) {s s' : System} → Step n s s' → List Event → List Event
logged n {s} (first ok) log = event_of 0 s.thread0.pc (moved0 n ok s).thread.pc ++ log
logged n {s} (second ok) log = event_of 1 s.thread1.pc (moved1 n ok s).thread.pc ++ log
logged n (tick d) log = log

-- the states of the runs, each with the events of its run, the latest first
pub data Reach (n : ℕ) : System → List Event → Type 0 where
  started : (now : ℕ) → Reach n (initial n now) []
  stepped :
      {s s' : System} {log : List Event}
      → Reach n s log
      → (step : Step n s s') → Reach n s' (logged n step log)
