-- ===== src/Pingpong/Spin/Order.antt =====
-- The spinning threads of pingpong.c take turns in every run.
use Prim.Native.Nat.{suc}
use osjitter.Prelude.{ℕ, ◌+◌, ◌-◌, ◌%◌, ◌^◌, ◌≤◌, ◌<◌, ◌≡◌, ◌⊎◌, inl, inr, refl, List, ◌++◌, arith}
use osjitter.Prelude.Words.{sub64}
use osjitter.Pingpong.Worker.{Locals}
use osjitter.Pingpong.Rally.{Event, silent}
use osjitter.Pingpong.Spin.{
  Pc, top, sending, storing, receiving, loaded, finished, faulted, Thread, System, move0, move1,
  event_of, first, second, tick, Reach, started, stepped,
}
use osjitter.Pingpong.Spin.Turns.{
  CanSend, Waits, CanLoad, Turn, sender-Before, sender-Behind, receiver-Before, receiver-Behind,
}

-- Thread 0 sends in the even iterations, thread 1 in the odd ones.
abbrev pub TakeTurns : ℕ → System → List Event → Type 0
TakeTurns n s log =
    (k : ℕ) × (((k % 2 ≡ 0) × Turn n s.now log k s.thread0 s.thread1 s.cell0 s.cell1)
      ⊎ ((k % 2 ≡ 1) × Turn n s.now log k s.thread1 s.thread0 s.cell1 s.cell0))

move0-TakeTurns :
    (n : ℕ) (s : System) (log : List Event)
    → TakeTurns n s log
    → TakeTurns n (move0 n s) (event_of 0 s.thread0.pc (move0 n s).thread0.pc ++ log)
move0-TakeTurns n s log (k, inl (even, inl (t, rally))) =
    let kept =
      sender-Before n s.now k 0 s.thread0.pc s.thread0.locals s.thread1 s.cell0 s.cell1 log even t
        rally in
    (k, inl (even, kept))
move0-TakeTurns n s log (k, inl (even, inr (t, rally))) =
    let kept =
      sender-Behind n s.now k 0 s.thread0.pc s.thread0.locals s.thread1 s.cell0 s.cell1 log even t
        rally in
    (k, inl (even, kept))
move0-TakeTurns n s log (k, inr (odd, inl (t, rally))) =
    let kept =
      receiver-Before n s.now k 0 s.thread1 s.thread0.pc s.thread0.locals s.cell1 s.cell0 log
        (omega arith) t rally in
    (k, inr (odd, kept))
move0-TakeTurns n s log (k, inr (odd, inr (t, rally))) =
    elim (receiver-Behind n s.now k 0 s.thread1 s.thread0.pc s.thread0.locals s.cell1 s.cell0 log
      (omega arith) t rally) [
        | inl same ↦ (k, inr (odd, same))
        | inr later ↦ (suc k, inl (omega arith, later))
      ]

move1-TakeTurns :
    (n : ℕ) (s : System) (log : List Event)
    → TakeTurns n s log
    → TakeTurns n (move1 n s) (event_of 1 s.thread1.pc (move1 n s).thread1.pc ++ log)
move1-TakeTurns n s log (k, inr (odd, inl (t, rally))) =
    let kept =
      sender-Before n s.now k 1 s.thread1.pc s.thread1.locals s.thread0 s.cell1 s.cell0 log odd t
        rally in
    (k, inr (odd, kept))
move1-TakeTurns n s log (k, inr (odd, inr (t, rally))) =
    let kept =
      sender-Behind n s.now k 1 s.thread1.pc s.thread1.locals s.thread0 s.cell1 s.cell0 log odd t
        rally in
    (k, inr (odd, kept))
move1-TakeTurns n s log (k, inl (even, inl (t, rally))) =
    let kept =
      receiver-Before n s.now k 1 s.thread0 s.thread1.pc s.thread1.locals s.cell0 s.cell1 log
        (omega arith) t rally in
    (k, inl (even, kept))
move1-TakeTurns n s log (k, inl (even, inr (t, rally))) =
    elim (receiver-Behind n s.now k 1 s.thread0 s.thread1.pc s.thread1.locals s.cell0 s.cell1 log
      (omega arith) t rally) [
        | inl same ↦ (k, inl (even, same))
        | inr later ↦ (suc k, inr (omega arith, later))
      ]

CanSend-later : (n now d : ℕ) (pc : Pc) (l : Locals) → CanSend n now pc l → CanSend n (now + d) pc l
CanSend-later n now d (storing t) l h = omega arith
CanSend-later n now d top l h = h
CanSend-later n now d sending l h = h
CanSend-later n now d finished l h = h
CanSend-later n now d receiving l h = h
CanSend-later n now d (loaded v) l h = h
CanSend-later n now d faulted l h = h

Turn-later :
    (n now d k : ℕ) (s r : Thread) (cell_s cell_r : ℕ) (log : List Event)
    → Turn n now log k s r cell_s cell_r
    → Turn n (now + d) log k s r cell_s cell_r
Turn-later n now d k s r cell_s cell_r log (inl ((h1, h2, h3, h4, h5, h6, h7), rally)) =
    inl ((h1, h2, h3, h4, h5, CanSend-later n now d s.pc s.locals h6, h7), rally)
Turn-later n now d k s r cell_s cell_r log (inr ((h1, h2, h3, h4, h5, h6, h7, h8, h9), rally)) =
    inr ((h1, h2, h3, h4, omega arith, h6, h7, h8, h9), rally)

tick-TakeTurns :
    (n d : ℕ) (s : System) (log : List Event)
    → TakeTurns n s log
    → TakeTurns n (record s { now = s.now + d }) log
tick-TakeTurns n d s log (k, inl (even, t)) =
    (k, inl (even, Turn-later n s.now d k s.thread0 s.thread1 s.cell0 s.cell1 log t))
tick-TakeTurns n d s log (k, inr (odd, t)) =
    (k, inr (odd, Turn-later n s.now d k s.thread1 s.thread0 s.cell1 s.cell0 log t))

-- In every state of every run the threads take turns: for some k both are in iteration k, its sender
-- before its store and with nothing new in the cells, or the sender is one iteration ahead and the
-- receiver's cell holds a value that is newer than all that either thread has received. The events
-- are those of a rally.
pub Reach-TakeTurns : (n : ℕ) (s : System) (log : List Event) → Reach n s log → TakeTurns n s log
Reach-TakeTurns n _ _ (started now) = (0, inl (refl, inl (ground arith, silent)))
Reach-TakeTurns n _ _ (stepped {s} {log} r first) =
    move0-TakeTurns n s log (Reach-TakeTurns n s log r)
Reach-TakeTurns n _ _ (stepped {s} {log} r second) =
    move1-TakeTurns n s log (Reach-TakeTurns n s log r)
Reach-TakeTurns n _ _ (stepped {s} {log} r (tick d)) =
    tick-TakeTurns n d s log (Reach-TakeTurns n s log r)

-- what a thread that has loaded a value is about to record
abbrev pub IsFresh : ℕ → ℕ → Pc → Locals → Type 0
IsFresh now cell (loaded v) l = (v ≡ cell) × (l.tsc < v) × (v ≤ now) × (sub64 now v ≡ now - v)
IsFresh now cell _ l = Unit

CanSend-IsFresh :
    (n now cell : ℕ) (pc : Pc) (l : Locals) → CanSend n now pc l → IsFresh now cell pc l
CanSend-IsFresh n now cell (loaded v) l h = elim h [ ]
CanSend-IsFresh n now cell top l h = tt
CanSend-IsFresh n now cell sending l h = tt
CanSend-IsFresh n now cell (storing t) l h = tt
CanSend-IsFresh n now cell receiving l h = tt
CanSend-IsFresh n now cell finished l h = tt
CanSend-IsFresh n now cell faulted l h = tt

Waits-IsFresh : (n now cell : ℕ) (pc : Pc) (l : Locals) → Waits n pc l → IsFresh now cell pc l
Waits-IsFresh n now cell (loaded v) l h = elim h [ ]
Waits-IsFresh n now cell top l h = tt
Waits-IsFresh n now cell sending l h = tt
Waits-IsFresh n now cell (storing t) l h = tt
Waits-IsFresh n now cell receiving l h = tt
Waits-IsFresh n now cell finished l h = tt
Waits-IsFresh n now cell faulted l h = tt

CanLoad-IsFresh :
    (n now cell : ℕ) (pc : Pc) (l : Locals)
    → now < 2 ^ 64
    → l.tsc < cell
    → cell ≤ now
    → CanLoad n cell pc l
    → IsFresh now cell pc l
CanLoad-IsFresh n now cell (loaded v) l small new old h = omega arith
CanLoad-IsFresh n now cell top l small new old h = tt
CanLoad-IsFresh n now cell sending l small new old h = tt
CanLoad-IsFresh n now cell (storing t) l small new old h = tt
CanLoad-IsFresh n now cell receiving l small new old h = tt
CanLoad-IsFresh n now cell finished l small new old h = tt
CanLoad-IsFresh n now cell faulted l small new old h = tt

Turn-IsFresh :
    (n now k : ℕ) (s r : Thread) (cell_s cell_r : ℕ) (log : List Event)
    → now < 2 ^ 64
    → Turn n now log k s r cell_s cell_r
    → IsFresh now cell_s s.pc s.locals × IsFresh now cell_r r.pc r.locals
Turn-IsFresh n now k s r cell_s cell_r log small (inl ((h1, h2, h3, h4, h5, h6, h7), _)) =
    (CanSend-IsFresh n now cell_s s.pc s.locals h6, Waits-IsFresh n now cell_r r.pc r.locals h7)
Turn-IsFresh n now k s r cell_s cell_r log small (inr ((h1, h2, h3, h4, h5, h6, h7, h8, h9), _)) = (
  Waits-IsFresh n now cell_s s.pc s.locals h8,
  CanLoad-IsFresh n now cell_r r.pc r.locals small (omega arith) h5 h9,
)

-- In every state of a run whose counter is below 2 ^ 64, a thread that has loaded a value finds it in
-- its cell still; the value is newer than the one it received before and not later than the counter,
-- and the delta it is about to record does not wrap.
pub loaded-IsFresh :
    (n : ℕ) (s : System) (log : List Event)
    → Reach n s log
    → s.now < 2 ^ 64
    → IsFresh s.now s.cell0 s.thread0.pc s.thread0.locals
      × IsFresh s.now s.cell1 s.thread1.pc s.thread1.locals
loaded-IsFresh n s log r small =
    let (k, turns) = Reach-TakeTurns n s log r in
    elim turns [
      | inl (even, t) ↦ Turn-IsFresh n s.now k s.thread0 s.thread1 s.cell0 s.cell1 log small t
      | inr (odd, t) ↦
          let (h1, h0) = Turn-IsFresh n s.now k s.thread1 s.thread0 s.cell1 s.cell0 log small t in
          (h0, h1)
    ]
