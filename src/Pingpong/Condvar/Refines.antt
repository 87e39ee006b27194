-- ===== src/Pingpong/Condvar/Refines.antt =====
-- The threads of pingpong.c that use condition variables refine the rally, without a data race.
use Prim.Native.Nat.{suc}
use osjitter.Prelude.{
  ℕ, ◌+◌, ◌%◌, ◌≤◌, ◌≡◌, ◌⊎◌, inl, inr, refl, Bool, true, false, List, ◌++◌, arith,
}
use osjitter.Pingpong.Worker.{Locals, Answer}
use osjitter.Pingpong.Rally.{Event, Rally, silent}
use osjitter.Pingpong.Condvar.{
  Pc, top, timing, acquiring, finished, failed, Thread, Item, System, move0, move1, moved0, moved1,
  event_of, first, second, tick, Reach, started, stepped,
}
use osjitter.Pingpong.Condvar.Phases.{CanSend, Turn, free, held, stored, given, got}
use osjitter.Pingpong.Condvar.Sender.{sender-Turn}
use osjitter.Pingpong.Condvar.Receiver.{receiver-Turn}

-- Thread 0 sends in the even iterations, thread 1 in the odd ones.
abbrev pub Alternates : ℕ → System → List Event → Type 0
Alternates n s log =
    (k : ℕ) × (((k % 2 ≡ 0) × Turn n s.now log k s.thread0 s.thread1 s.item0 s.item1)
      ⊎ ((k % 2 ≡ 1) × Turn n s.now log k s.thread1 s.thread0 s.item1 s.item0))

move0-Alternates :
    (n : ℕ) (a : Answer) (s : System) (log : List Event)
    → Alternates n s log
    → Alternates n (move0 n a s) (event_of 0 s.thread0.pc (moved0 n a s).thread.pc ++ log)
move0-Alternates n a s log (k, inl (even, t)) =
    (k, inl (even, sender-Turn n s.now k 0 a s.thread0 s.thread1 s.item0 s.item1 log even t))
move0-Alternates n a s log (k, inr (odd, t)) =
    elim (receiver-Turn n s.now k 0 a s.thread1 s.thread0 s.item1 s.item0 log (omega arith) t) [
      | inl same ↦ (k, inr (odd, same))
      | inr later ↦ (suc k, inl (omega arith, later))
    ]

move1-Alternates :
    (n : ℕ) (a : Answer) (s : System) (log : List Event)
    → Alternates n s log
    → Alternates n (move1 n a s) (event_of 1 s.thread1.pc (moved1 n a s).thread.pc ++ log)
move1-Alternates n a s log (k, inr (odd, t)) =
    (k, inr (odd, sender-Turn n s.now k 1 a s.thread1 s.thread0 s.item1 s.item0 log odd t))
move1-Alternates n a s log (k, inl (even, t)) =
    elim (receiver-Turn n s.now k 1 a s.thread0 s.thread1 s.item0 s.item1 log (omega arith) t) [
      | inl same ↦ (k, inl (even, same))
      | inr later ↦ (suc k, inr (omega arith, later))
    ]

CanSend-later :
    (n now d k : ℕ) (pc : Pc) (l : Locals) → CanSend n now k pc l → CanSend n (now + d) k pc l
CanSend-later n now d k (acquiring t) l h = omega (arith, h)
CanSend-later n now d k top l h = h
CanSend-later n now d k timing l h = h
CanSend-later n now d k finished l h = h
CanSend-later n now d k failed l h = h
CanSend-later n now d k _ l h = ground arith

Turn-later :
    (n now d k : ℕ) (s r : Thread) (log : List Event) (ss sr : Item)
    → Turn n now log k s r ss sr
    → Turn n (now + d) log k s r ss sr
Turn-later n now d k s r log ss sr (free room times old shut i waits rally) =
    free room times old shut (CanSend-later n now d k s.pc s.locals i) waits rally
Turn-later n now d k s r log ss sr (held t at_t i times old locks waits rally) =
    held t at_t (omega (arith, i)) times old locks waits rally
Turn-later n now d k s r log ss sr (stored at_release i times locks waits rally) =
    stored at_release (omega (arith, i)) times locks waits rally
Turn-later n now d k s r log ss sr (given i times waits finds heard rally) =
    given (omega (arith, i)) times waits finds heard rally
Turn-later n now d k s r log ss sr (got i times waits holds rally) =
    got (omega (arith, i)) times waits holds rally

pub Reach-Alternates : (n : ℕ) (s : System) (log : List Event) → Reach n s log → Alternates n s log
Reach-Alternates n _ _ (started now) = (
  0,
  inl (
    refl,
    free (omega arith) (omega arith, omega arith) (omega arith) refl refl (refl, refl) silent,
  ),
)
Reach-Alternates n _ _ (stepped {s} {log} r (first a)) =
    move0-Alternates n a s log (Reach-Alternates n s log r)
Reach-Alternates n _ _ (stepped {s} {log} r (second a)) =
    move1-Alternates n a s log (Reach-Alternates n s log r)
Reach-Alternates n _ _ (stepped {s} {log} r (tick d)) =
    let (k, turns) = Reach-Alternates n s log r in
    elim turns [
      | inl (even, t) ↦
          (k, inl (even, Turn-later n s.now d k s.thread0 s.thread1 log s.item0 s.item1 t))
      | inr (odd, t) ↦
          (k, inr (odd, Turn-later n s.now d k s.thread1 s.thread0 log s.item1 s.item0 t))
    ]

-- The rally that a run has played: what is under way is the time in the receiver's item.
abbrev pub Played : ℕ → System → List Event → Type 0
Played n s log =
    (k last : ℕ) × (flying : Bool) × (k ≤ n)
    × Rally k last flying log
    × (flying ≡ true → ((k % 2 ≡ 0) × (s.item0.tsc ≡ last)) ⊎ ((k % 2 ≡ 1) × (s.item1.tsc ≡ last)))

-- the same in a turn, by the receiver's item
abbrev PlayedTurn : ℕ → ℕ → Item → List Event → Type 0
PlayedTurn n k sr log =
    (m last : ℕ) × (flying : Bool) × (m ≤ n)
    × Rally m last flying log
    × (flying ≡ true → (m ≡ suc k) × (sr.tsc ≡ last))

Turn-Played :
    (n now k : ℕ) (s r : Thread) (log : List Event) (ss sr : Item)
    → Turn n now log k s r ss sr
    → PlayedTurn n k sr log
Turn-Played n now k s r log ss sr (free room times old shut i waits rally) =
    (k, s.locals.tsc, false, room, rally, λ e. cc)
Turn-Played n now k s r log ss sr (held t at_t i times old locks waits rally) =
    (k, s.locals.tsc, false, omega (arith, i), rally, λ e. cc)
Turn-Played n now k s r log ss sr (stored at_release i times locks waits rally) =
    (suc k, sr.tsc, true, omega (arith, i), rally, λ e. (refl, refl))
Turn-Played n now k s r log ss sr (given i times waits finds heard rally) =
    (suc k, sr.tsc, true, omega (arith, i), rally, λ e. (refl, refl))
Turn-Played n now k s r log ss sr (got i times waits holds rally) =
    (suc k, sr.tsc, false, omega (arith, i), rally, λ e. cc)

-- In every run, with any spurious wake-ups and whichever calls fail, the events are those of a rally
-- of at most n notifications, and the receiver finds the time of the notification that is under way
-- in its item.
pub Reach-Played : (n : ℕ) (s : System) (log : List Event) → Reach n s log → Played n s log
Reach-Played n s log r =
    let (k, turns) = Reach-Alternates n s log r in
    elim turns [
      | inl (even, t) ↦
          let (m, last, flying, room, rally, there) =
            Turn-Played n s.now k s.thread0 s.thread1 log s.item0 s.item1 t in
          (m, last, flying, room, rally, λ e. let (same, time) = there e in inr (omega arith, time))
      | inr (odd, t) ↦
          let (m, last, flying, room, rally, there) =
            Turn-Played n s.now k s.thread1 s.thread0 log s.item1 s.item0 t in
          (m, last, flying, room, rally, λ e. let (same, time) = there e in inl (omega arith, time))
    ]
