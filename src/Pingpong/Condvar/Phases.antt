-- ===== src/Pingpong/Condvar/Phases.antt =====
-- The phases of an iteration of the two threads of pingpong.c that use condition variables, and the
-- steps of a thread that waits for its turn.
use Prim.Native.Nat.{suc}
use osjitter.Prelude.{
  ℕ, ◌%◌, ◌≤◌, ◌<◌, ◌≡◌, ◌≢◌, ◌⊎◌, inl, inr, refl, Bool, true, false, not, ◌&&◌, List, [], arith,
  ltb, leb, Bool-cases,
}
use osjitter.Pingpong.Worker.{Locals, is_sender, Answer, is_error, is_spurious}
use osjitter.Pingpong.Rally.{Event, Rally}
use osjitter.Pingpong.Condvar.{
  Pc, top, timing, acquiring, storing, releasing, signalling, locking, testing, blocking, waiting,
  relocking, loading, unlocking, loaded, finished, failed, faulted, Thread, Item, Moved, move,
  event_of,
}

-- the sender of iteration k, without a mutex
abbrev pub CanSend : ℕ → ℕ → ℕ → Pc → Locals → Type 0
CanSend n now k top l = l.i ≡ k
CanSend n now k timing l = (l.i ≡ k) × (k < n)
CanSend n now k (acquiring t) l = (l.i ≡ k) × (k < n) × (l.tsc < t) × (t ≤ now)
CanSend n now k finished l = (l.i ≡ k) × (n ≤ k)
CanSend n now k failed l = Unit
CanSend n now k _ l = ⊥

-- A thread that is to receive in iteration k, which may not have signalled yet in the one before. The
-- flag says whether it has the mutex of its item.
abbrev pub Waits : ℕ → ℕ → Bool → Pc → Locals → Type 0
Waits n k mine signalling l = (suc l.i ≡ k) × (mine ≡ false)
Waits n k mine top l = (l.i ≡ k) × (mine ≡ false)
Waits n k mine locking l = (l.i ≡ k) × (k < n) × (mine ≡ false)
Waits n k mine testing l = (l.i ≡ k) × (k < n) × (mine ≡ true)
Waits n k mine blocking l = (l.i ≡ k) × (k < n) × (mine ≡ true)
Waits n k mine waiting l = (l.i ≡ k) × (k < n) × (mine ≡ false)
Waits n k mine relocking l = (l.i ≡ k) × (k < n) × (mine ≡ false)
Waits n k mine finished l = (l.i ≡ k) × (n ≤ k) × (mine ≡ false)
Waits n k mine failed l = Unit
Waits n k mine _ l = ⊥

-- the receiver of iteration k, which finds a new time in its item
abbrev pub Finds : ℕ → ℕ → Bool → Pc → Locals → Type 0
Finds n k mine blocking l = ⊥
Finds n k mine loading l = (l.i ≡ k) × (mine ≡ true)
Finds n k mine pc l = Waits n k mine pc l

-- the receiver behind its load of the time t
abbrev pub Holds : ℕ → ℕ → Bool → Pc → Locals → Type 0
Holds k t mine (unlocking v) l = (l.i ≡ k) × (v ≡ t) × (mine ≡ true)
Holds k t mine (loaded v) l = (l.i ≡ k) × (v ≡ t) × (mine ≡ false)
Holds k t mine faulted l = mine ≡ false
Holds k t mine failed l = Unit
Holds k t mine _ l = ⊥

abbrev pub is_waiting : Pc → Bool
is_waiting waiting = true
is_waiting _ = false

-- whether a thread is about to signal, or has failed
abbrev pub is_due : Pc → Bool
is_due signalling = true
is_due failed = true
is_due _ = false

-- A receiver that waits for a signal is to get one, unless the sender has failed.
abbrev pub IsHeard : Pc → Pc → Item → Type 0
IsHeard s_pc r_pc item = is_waiting r_pc ≡ true → item.waits ≡ true → is_due s_pc ≡ true

-- what holds of the times in every phase, with the time of the last notification
abbrev pub Times : Thread → Thread → Item → Type 0
Times s r ss = (r.locals.tsc ≤ s.locals.tsc) × (ss.tsc ≤ s.locals.tsc)

-- `s` is the sender of iteration k, and `r` its receiver.
pub data Turn (n now : ℕ) (log : List Event) (k : ℕ) (s r : Thread) (ss sr : Item) : Type 0 where
  free :
      k ≤ n
      → Times s r ss
      → sr.tsc ≤ r.locals.tsc
      → ss.locked ≡ false
      → CanSend n now k s.pc s.locals
      → Waits n k sr.locked r.pc r.locals
      → Rally k s.locals.tsc false log
      → Turn n now log k s r ss sr
  held :
      (t : ℕ)
      → s.pc ≡ storing t
      → (s.locals.i ≡ k) × (k < n) × (s.locals.tsc < t) × (t ≤ now)
      → Times s r ss
      → sr.tsc ≤ r.locals.tsc
      → (ss.locked ≡ false) × (sr.locked ≡ true)
      → Waits n k false r.pc r.locals
      → Rally k s.locals.tsc false log
      → Turn n now log k s r ss sr
  stored :
      (s.pc ≡ releasing) ⊎ (s.pc ≡ failed)
      → (s.locals.i ≡ k) × (k < n) × (s.locals.tsc < sr.tsc) × (sr.tsc ≤ now)
      → Times s r ss
      → (ss.locked ≡ false) × (sr.locked ≡ true)
      → Waits n k false r.pc r.locals
      → Rally (suc k) sr.tsc true log
      → Turn n now log k s r ss sr
  given :
      (k < n) × (s.locals.tsc < sr.tsc) × (sr.tsc ≤ now)
      → Times s r ss
      → Waits n (suc k) ss.locked s.pc s.locals
      → Finds n k sr.locked r.pc r.locals
      → IsHeard s.pc r.pc sr
      → Rally (suc k) sr.tsc true log
      → Turn n now log k s r ss sr
  got :
      (k < n) × (s.locals.tsc < sr.tsc) × (sr.tsc ≤ now)
      → Times s r ss
      → Waits n (suc k) ss.locked s.pc s.locals
      → Holds k sr.tsc sr.locked r.pc r.locals
      → Rally (suc k) sr.tsc false log
      → Turn n now log k s r ss sr

-- what a step of a thread that waits leaves as it is
abbrev pub Keeps : ℕ → Pc → Locals → Item → Item → Moved → Type 0
Keeps init pc l own other m =
    (m.thread.locals.tsc ≡ l.tsc)
    × (m.own.tsc ≡ own.tsc)
    × (m.other.locked ≡ other.locked)
    × (m.other.tsc ≡ other.tsc)
    × (event_of init pc m.thread.pc ≡ [])
    × (m.other.waits ≡ true → (other.waits ≡ true) × (is_due pc ≡ true → is_due m.thread.pc ≡ true))

-- A thread that waits goes on waiting, if there is nothing new in its item.
pub Waits-move :
    (n now k init : ℕ) (a : Answer) (pc : Pc) (l : Locals) (own other : Item)
    → k % 2 ≢ init
    → own.tsc ≤ l.tsc
    → Waits n k own.locked pc l
    → let m = move n init now a pc l own other in
      Waits n k m.own.locked m.thread.pc m.thread.locals × Keeps init pc l own other m
unfolding move
Waits-move n now k init a signalling l own other turn old h = elim (Bool-cases (is_error a)) [
  | inl bad ↦ rw bad (tt, (refl, refl, refl, refl, refl, λ e. (e, λ p. refl)))
  | inr good ↦ rw good ((omega arith, h.1), (refl, refl, refl, refl, refl, λ e. cc))
]
Waits-move n now k init a top l own other turn old h = elim (Bool-cases (ltb l.i n)) [
  | inl more ↦
      let not_mine : is_sender init l.i ≡ false = ground arith in
      rw (more, not_mine) (ground (arith, more), (refl, refl, refl, refl, refl, λ e. (e, λ p. cc)))
  | inr over ↦ rw over (ground (arith, over), (refl, refl, refl, refl, refl, λ e. (e, λ p. cc)))
]
Waits-move n now k init a locking l own other turn old (i, more, mine) =
    elim (Bool-cases (is_error a)) [
      | inl bad ↦ rw bad (tt, (refl, refl, refl, refl, refl, λ e. (e, λ p. cc)))
      | inr good ↦
          rw (good, mine) ((i, more, refl), (refl, refl, refl, refl, refl, λ e. (e, λ p. cc)))
    ]
Waits-move n now k init a testing l own other turn old h =
    let nothing : leb own.tsc l.tsc ≡ true = ground arith in
    rw nothing (h, (refl, refl, refl, refl, refl, λ e. (e, λ p. cc)))
Waits-move n now k init a blocking l own other turn old (i, more, mine) =
    elim (Bool-cases (is_error a)) [
      | inl bad ↦ rw bad (tt, (refl, refl, refl, refl, refl, λ e. (e, λ p. cc)))
      | inr good ↦ rw good ((i, more, refl), (refl, refl, refl, refl, refl, λ e. (e, λ p. cc)))
    ]
Waits-move n now k init a waiting l own other turn old h =
    elim (Bool-cases (own.waits && not (is_spurious a))) [
      | inl stays ↦ rw stays (h, (refl, refl, refl, refl, refl, λ e. (e, λ p. cc)))
      | inr wakes ↦ rw wakes (h, (refl, refl, refl, refl, refl, λ e. (e, λ p. cc)))
    ]
Waits-move n now k init a relocking l own other turn old (i, more, mine) =
    rw mine ((i, more, refl), (refl, refl, refl, refl, refl, λ e. (e, λ p. cc)))
Waits-move n now k init a finished l own other turn old h =
    (h, (refl, refl, refl, refl, refl, λ e. (e, λ p. cc)))
Waits-move n now k init a failed l own other turn old h =
    (tt, (refl, refl, refl, refl, refl, λ e. (e, λ p. refl)))
Waits-move n now k init a _ l own other turn old h = ground arith

-- The same while the other thread has the mutex of its item.
pub Waits-move_locked :
    (n now k init : ℕ) (a : Answer) (pc : Pc) (l : Locals) (own other : Item)
    → k % 2 ≢ init
    → own.locked ≡ true
    → Waits n k false pc l
    → let m = move n init now a pc l own other in
      Waits n k false m.thread.pc m.thread.locals
      × (m.own.locked ≡ true)
      × Keeps init pc l own other m
unfolding move
Waits-move_locked n now k init a signalling l own other turn taken h =
    elim (Bool-cases (is_error a)) [
      | inl bad ↦ rw bad (tt, taken, (refl, refl, refl, refl, refl, λ e. (e, λ p. refl)))
      | inr good ↦ rw good ((omega arith, refl), taken, (refl, refl, refl, refl, refl, λ e. cc))
    ]
Waits-move_locked n now k init a top l own other turn taken h = elim (Bool-cases (ltb l.i n)) [
  | inl more ↦
      let not_mine : is_sender init l.i ≡ false = ground arith in
      rw (more, not_mine)
        (ground (arith, more), taken, (refl, refl, refl, refl, refl, λ e. (e, λ p. cc)))
  | inr over ↦
      rw over (ground (arith, over), taken, (refl, refl, refl, refl, refl, λ e. (e, λ p. cc)))
]
Waits-move_locked n now k init a locking l own other turn taken h = elim (Bool-cases (is_error a)) [
  | inl bad ↦ rw bad (tt, taken, (refl, refl, refl, refl, refl, λ e. (e, λ p. cc)))
  | inr good ↦ rw (good, taken) (h, refl, (refl, refl, refl, refl, refl, λ e. (e, λ p. cc)))
]
Waits-move_locked n now k init a waiting l own other turn taken h =
    elim (Bool-cases (own.waits && not (is_spurious a))) [
      | inl stays ↦ rw stays (h, taken, (refl, refl, refl, refl, refl, λ e. (e, λ p. cc)))
      | inr wakes ↦ rw wakes (h, taken, (refl, refl, refl, refl, refl, λ e. (e, λ p. cc)))
    ]
Waits-move_locked n now k init a relocking l own other turn taken h =
    rw taken (h, refl, (refl, refl, refl, refl, refl, λ e. (e, λ p. cc)))
Waits-move_locked n now k init a finished l own other turn taken h =
    (h, taken, (refl, refl, refl, refl, refl, λ e. (e, λ p. cc)))
Waits-move_locked n now k init a failed l own other turn taken h =
    (tt, taken, (refl, refl, refl, refl, refl, λ e. (e, λ p. refl)))
Waits-move_locked n now k init a _ l own other turn taken h = ground arith
