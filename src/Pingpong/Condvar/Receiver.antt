-- ===== src/Pingpong/Condvar/Receiver.antt =====
-- The steps of the receiver of an iteration, for the threads of pingpong.c that use condition
-- variables.
use Prim.Native.Nat.{suc}
use mathlib.Core.Path.{subst}
use osjitter.Prelude.{
  ℕ, ◌%◌, ◌≤◌, ◌<◌, ◌≡◌, ◌⊎◌, sym, ◌∙◌, inl, inr, refl, true, false, not, ◌&&◌, List, ◌∷◌, ◌++◌,
  arith, ltb, leb, Bool-cases,
}
use osjitter.Pingpong.Worker.{Locals, is_sender, Answer, is_error, is_spurious}
use osjitter.Pingpong.Worker.Room.{received-cases}
use osjitter.Pingpong.Rally.{Event, Rally, take_over, Rally-silent}
use osjitter.Pingpong.Rally
use osjitter.Pingpong.Condvar.{
  Pc, top, signalling, locking, testing, waiting, relocking, loading, unlocking, loaded, finished,
  failed, faulted, Thread, Item, move, event_of,
}
use osjitter.Pingpong.Condvar.Phases.{
  Waits, Finds, Holds, IsHeard, Times, Turn, free, held, stored, given, got, Waits-move,
  Waits-move_locked,
}

-- The receiver finds the new time, whatever it was about to do.
receiver-given :
    (n now k init : ℕ) (a : Answer) (s : Thread) (pc : Pc) (l : Locals) (ss sr : Item)
    (log : List Event)
    → suc k % 2 ≡ init
    → (k < n) × (s.locals.tsc < sr.tsc) × (sr.tsc ≤ now)
    → Times s (record { pc = pc; locals = l }) ss
    → Waits n (suc k) ss.locked s.pc s.locals
    → Finds n k sr.locked pc l
    → IsHeard s.pc pc sr
    → Rally (suc k) sr.tsc true log
    → let m = move n init now a pc l sr ss in
      Turn n now (event_of init pc m.thread.pc ++ log) k s m.thread m.other m.own
unfolding move
receiver-given n now k init a s signalling l ss sr log own i times waits finds heard rally =
    elim (Bool-cases (is_error a)) [
      | inl bad ↦ rw bad (given i times waits tt (λ w. cc) rally)
      | inr good ↦ rw good (given i times waits (omega arith, finds.1) (λ w. cc) rally)
    ]
receiver-given n now k init a s top l ss sr log own i times waits finds heard rally =
    let more : ltb l.i n ≡ true = ground arith in
    let not_mine : is_sender init l.i ≡ false = ground arith in
    rw (more, not_mine) (given i times waits (finds.0, i.0, finds.1) (λ w. cc) rally)
receiver-given n now k init a s locking l ss sr log own i times waits (at_k, below, mine) heard
      rally =
    elim (Bool-cases (is_error a)) [
      | inl bad ↦ rw bad (given i times waits tt (λ w. cc) rally)
      | inr good ↦ rw (good, mine) (given i times waits (at_k, below, refl) (λ w. cc) rally)
    ]
receiver-given n now k init a s failed l ss sr log own i times waits finds heard rally =
    given i times waits tt (λ w. cc) rally
receiver-given n now k init a s testing l ss sr log own i times waits (at_k, _, mine) heard rally =
    let new : leb sr.tsc l.tsc ≡ false = ground arith in
    rw new (given i times waits (at_k, mine) (λ w. cc) rally)
receiver-given n now k init a s waiting l ss sr log own i times waits finds heard rally =
    elim (Bool-cases (sr.waits && not (is_spurious a))) [
      | inl stays ↦ rw stays (given i times waits finds heard rally)
      | inr wakes ↦ rw wakes (given i times waits finds (λ w. cc) rally)
    ]
receiver-given n now k init a s relocking l ss sr log own i times waits (at_k, _, mine) heard
      rally =
    rw mine (given i times waits (at_k, i.0, refl) (λ w. cc) rally)
receiver-given n now k init a s loading l ss sr log own i times waits (at_k, mine) heard rally =
    let log' =
      subst (λ (p : ℕ). Rally (suc k) sr.tsc false (Rally.got p sr.tsc ∷ log)) own
        (take_over rally) in
    got i times waits (at_k, refl, mine) log'
receiver-given n now k init a s finished l ss sr log own i times waits finds heard rally =
    ground arith
receiver-given n now k init a s _ l ss sr log own i times waits finds heard rally = ground arith

-- The receiver's last step of an iteration makes it the sender of the next one.
receiver-got :
    (n now k init : ℕ) (a : Answer) (s : Thread) (pc : Pc) (l : Locals) (ss sr : Item)
    (log : List Event)
    → (k < n) × (s.locals.tsc < sr.tsc) × (sr.tsc ≤ now)
    → Times s (record { pc = pc; locals = l }) ss
    → Waits n (suc k) ss.locked s.pc s.locals
    → Holds k sr.tsc sr.locked pc l
    → Rally (suc k) sr.tsc false log
    → let m = move n init now a pc l sr ss in
      let log' = event_of init pc m.thread.pc ++ log in
      Turn n now log' k s m.thread m.other m.own ⊎ Turn n now log' (suc k) m.thread s m.own m.other
unfolding move
receiver-got n now k init a s (unlocking v) l ss sr log i times waits (at_k, v-eq, mine) rally =
    elim (Bool-cases (is_error a)) [
      | inl bad ↦ rw bad (inl (got i times waits tt rally))
      | inr good ↦ rw good (inl (got i times waits (at_k, v-eq, refl) rally))
    ]
receiver-got n now k init a s failed l ss sr log i times waits holds rally =
    inl (got i times waits holds rally)
receiver-got n now k init a s (loaded v) l ss sr log i times waits (at_k, v-eq, mine) rally =
    elim (received-cases n now v l) [
      | inl (room, e) ↦
          let last = subst (λ (p : ℕ). Rally (suc k) p false log) (sym v-eq) rally in
          rw e (
            inr
              (free (omega arith) (omega arith, omega arith) times.1 mine (omega arith) waits last))
      | inr (full, e) ↦ rw e (inl (got i times waits mine rally))
    ]
receiver-got n now k init a s faulted l ss sr log i times waits holds rally =
    inl (got i times waits holds rally)
receiver-got n now k init a s _ l ss sr log i times waits holds rally = ground arith

-- A step of the receiver keeps the turn, or passes it on.
pub receiver-Turn :
    (n now k init : ℕ) (a : Answer) (s r : Thread) (ss sr : Item) (log : List Event)
    → suc k % 2 ≡ init
    → Turn n now log k s r ss sr
    → let m = move n init now a r.pc r.locals sr ss in
      let log' = event_of init r.pc m.thread.pc ++ log in
      Turn n now log' k s m.thread m.other m.own ⊎ Turn n now log' (suc k) m.thread s m.own m.other
receiver-Turn n now k init a s r ss sr log own (free room times old shut i waits rally) =
    let (waits', (e0, e1, e2, e3, silent, _)) =
      Waits-move n now k init a r.pc r.locals sr ss (omega arith) old waits in
    inl (
      free room (omega arith, omega arith) (omega arith) (e2 ∙ shut) i waits'
        (Rally-silent silent refl rally))
receiver-Turn n now k init a s r ss sr log own (held t at_t i times old locks waits rally) =
    let (waits', taken, (e0, e1, e2, e3, silent, _)) =
      Waits-move_locked n now k init a r.pc r.locals sr ss (omega arith) locks.1 waits in
    inl (
      held t at_t i (omega arith, omega arith) (omega arith) (e2 ∙ locks.0, taken) waits'
        (Rally-silent silent refl rally))
receiver-Turn n now k init a s r ss sr log own (stored at_release i times locks waits rally) =
    let (waits', taken, (e0, e1, e2, e3, silent, _)) =
      Waits-move_locked n now k init a r.pc r.locals sr ss (omega arith) locks.1 waits in
    inl (
      stored at_release (omega (arith, i)) (omega arith, omega arith) (e2 ∙ locks.0, taken) waits'
        (Rally-silent silent e1 rally))
receiver-Turn n now k init a s r ss sr log own (given i times waits finds heard rally) =
    inl
      (receiver-given n now k init a s r.pc r.locals ss sr log own i times waits finds heard rally)
receiver-Turn n now k init a s r ss sr log own (got i times waits holds rally) =
    receiver-got n now k init a s r.pc r.locals ss sr log i times waits holds rally
