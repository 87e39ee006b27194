-- ===== src/Pingpong/Spin.antt =====
-- `spin_main`, `spin_pause_main` and `spin_pause_more_main` of pingpong.c, which differ in the pauses
-- between two loads: two threads that notify each other through an atomic cell each. A step of a
-- thread is one access of a cell or one reading of the time-stamp counter; a store is read at once by
-- every later load.
pub mod Turns
pub mod Order
pub mod Room
pub mod Refines
use osjitter.Prelude.{
  ℕ, ◌+◌, ◌-◌, ◌*◌, ◌%◌, ◌≡◌, refl, Bool, true, false, List, [], ◌∷◌, ◌++◌, Option, none, some,
  arith, ltb, leb, ◌==◌, if◌then◌else◌,
}
use osjitter.Pingpong.Worker.{Locals, start, is_sender, next, received}
use osjitter.Pingpong.Rally.{Event, sent, got}

-- where a thread stands
pub data Pc : Type 0 where
  -- at the head of the loop
  top : Pc
  -- before `fenced_rdtsc`
  sending : Pc
  -- before the store of t
  storing : ℕ → Pc
  -- before the load
  receiving : Pc
  -- before `fenced_rdtscp`, with the value loaded
  loaded : ℕ → Pc
  -- behind the loop
  finished : Pc
  -- stopped by a store behind the end of `ds`
  faulted : Pc

pub record Thread : Type 0 where
  pub pc : Pc
  pub locals : Locals

-- the value stored in the other thread's cell, if any, with the thread afterwards
pub record Moved : Type 0 where
  pub thread : Thread
  pub store : Option ℕ

abbrev at : Pc → Locals → Moved
at pc l = record { thread = record { pc = pc; locals = l }; store = none }

abbrev record_delta : Option Locals → Locals → Moved
record_delta none l = at faulted l
record_delta (some l') l = at top (next l')

-- One step of thread `init`, when the counter shows `now` and its own cell holds `cell`.
unfoldable pub move : ℕ → ℕ → ℕ → ℕ → Pc → Locals → Moved
unfolding received
move n init now cell top l =
    if ltb l.i n
    then (if is_sender init l.i then at sending l else at receiving l)
    else at finished l
move n init now cell sending l = if leb now l.tsc then at sending l else at (storing now) l
move n init now cell (storing t) l = record {
  thread = record { pc = top; locals = next l };
  store = some t;
}
move n init now cell receiving l = if ltb l.tsc cell then at (loaded cell) l else at receiving l
move n init now cell (loaded v) l = record_delta (received n now v l) l
move n init now cell finished l = at finished l
move n init now cell faulted l = at faulted l

abbrev pub after_store : Option ℕ → ℕ → ℕ
after_store none cell = cell
after_store (some t) cell = t

pub record System : Type 0 where
  pub thread0 : Thread
  pub thread1 : Thread
  pub cell0 : ℕ
  pub cell1 : ℕ
  pub now : ℕ

abbrev pub initial : ℕ → ℕ → System
initial n now = record {
  thread0 = record { pc = top; locals = start n };
  thread1 = record { pc = top; locals = start n };
  cell0 = 0;
  cell1 = 0;
  now = now;
}

abbrev pub move0 : ℕ → System → System
move0 n s =
    let m = move n 0 s.now s.cell0 s.thread0.pc s.thread0.locals in
    record s { thread0 = m.thread; cell1 = after_store m.store s.cell1 }

abbrev pub move1 : ℕ → System → System
move1 n s =
    let m = move n 1 s.now s.cell1 s.thread1.pc s.thread1.locals in
    record s { thread1 = m.thread; cell0 = after_store m.store s.cell0 }

-- A step of either thread, or of the counter.
pub data Step (n : ℕ) : System → System → Type 0 where
  first : {s : System} → Step n s (move0 n s)
  second : {s : System} → Step n s (move1 n s)
  tick : {s : System} → (d : ℕ) → Step n s (record s { now = s.now + d })

-- what a step from one place to another has done
abbrev pub event_of : ℕ → Pc → Pc → List Event
event_of init (storing t) top = sent init t ∷ []
event_of init receiving (loaded t) = got init t ∷ []
event_of init _ _ = []

-- the events of a step, before those of an earlier one
abbrev pub logged : (n : ℕ) {s s' : System} → Step n s s' → List Event → List Event
logged n {s} first log = event_of 0 s.thread0.pc (move0 n s).thread0.pc ++ log
logged n {s} second log = event_of 1 s.thread1.pc (move1 n s).thread1.pc ++ log
logged n (tick d) log = log

-- the states of the runs, each with the events of its run, the latest first
pub data Reach (n : ℕ) : System → List Event → Type 0 where
  started : (now : ℕ) → Reach n (initial n now) []
  stepped :
      {s s' : System} {log : List Event}
      → Reach n s log
      → (step : Step n s s') → Reach n s' (logged n step log)
