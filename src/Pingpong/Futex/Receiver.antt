-- ===== src/Pingpong/Futex/Receiver.antt =====
-- The steps of the receiver of an iteration, of the two threads of pingpong.c that share futexes.
use Prim.Native.Nat.{suc}
use mathlib.Core.Path.{subst}
use osjitter.Prelude.{
  ℕ, ◌%◌, ◌≡◌, ◌≢◌, ◌⊎◌, ap, sym, ◌∙◌, inl, inr, true, false, List, ◌∷◌, ◌++◌, arith, ltb, ◌==◌,
  Bool-cases,
}
use osjitter.Pingpong.Worker.{Answer, is_error, is_spurious, Locals, is_sender}
use osjitter.Pingpong.Worker.Room.{received-cases}
use osjitter.Pingpong.Rally.{Event, got, Rally, take_over}
use osjitter.Pingpong.Futex.{
  Pc, top, locking, waiting, asleep, waking_other, loading, loaded, unlocking, failed, faulted,
  Thread, Follicle, can_lock, can_unlock, move, woken, event_of,
}
use osjitter.Pingpong.Futex.Phases.{
  Free, Held, Given, Got, HeldLog, GotLog, Turn, free, held, given, taken,
}
use osjitter.Pingpong.Futex.Waiting.{
  IsFree-wake, Sends-wake, IsLockedOut-wake, HeldLog-wake, IsLockedOut-move,
}

pub receiver-Free :
    (n now k init : ℕ) (a : Answer) (s : Thread) (pc : Pc) (l : Locals) (fs fr : Follicle)
    (log : List Event)
    → Free n k s (record { pc = pc; locals = l }) fs fr
    → Rally k s.locals.tsc false log
    → let m = move n init now a pc l fr fs in
      Turn n now (event_of init pc m.thread.pc ++ log) k (woken m.wakes s) m.thread m.other m.own
receiver-Free n now k init a s pc l fs fr log (h0, h1, h2, h3, h4, h5) rally =
    let m = move n init now a pc l fr fs in
    let (out, same_tsc, own, other, wakes, silent) =
      IsLockedOut-move n now k init a pc l fr fs h1 h5 in
    rw silent (
      free
        (
          ap (λ (f : Follicle). f.futex) other ∙ h0,
          ap (λ (f : Follicle). f.futex) own ∙ h1,
          h2,
          omega arith,
          IsFree-wake n k m.wakes s.pc s.locals h4,
          out,
        )
        rally)

pub receiver-Held :
    (n now k init : ℕ) (a : Answer) (s : Thread) (pc : Pc) (l : Locals) (fs fr : Follicle)
    (log : List Event)
    → Held n now k s (record { pc = pc; locals = l }) fs fr
    → HeldLog k fr.tsc s.pc s.locals log
    → let m = move n init now a pc l fr fs in
      Turn n now (event_of init pc m.thread.pc ++ log) k (woken m.wakes s) m.thread m.other m.own
receiver-Held n now k init a s pc l fs fr log (h0, h1, h2, h3, h4, h5, h6) rally =
    let m = move n init now a pc l fr fs in
    let (out, same_tsc, own, other, wakes, silent) =
      IsLockedOut-move n now k init a pc l fr fs h1 h6 in
    let same_cell = ap (λ (f : Follicle). f.tsc) own in
    rw silent (
      held
        (
          ap (λ (f : Follicle). f.futex) other ∙ h0,
          ap (λ (f : Follicle). f.futex) own ∙ h1,
          omega arith,
          h3,
          h4,
          rw same_cell (Sends-wake now fr.tsc m.wakes s.pc s.locals h5),
          out,
        )
        (rw same_cell (HeldLog-wake k fr.tsc m.wakes s.pc s.locals log rally)))

pub receiver-Given :
    (n now k init : ℕ) (a : Answer) (s : Thread) (pc : Pc) (l : Locals) (fs fr : Follicle)
    (log : List Event)
    → k % 2 ≢ init
    → Given n now k s (record { pc = pc; locals = l }) fs fr
    → Rally (suc k) fr.tsc true log
    → let m = move n init now a pc l fr fs in
      Turn n now (event_of init pc m.thread.pc ++ log) k (woken m.wakes s) m.thread m.other m.own
unfolding move
receiver-Given n now k init a s top l fs fr log own h rally =
    let more : ltb l.i n ≡ true = ground arith in rw more (given (ground arith) rally)
receiver-Given n now k init a s locking l fs fr log own h rally =
    let other : is_sender init l.i ≡ false = ground arith in
    elim (Bool-cases (can_lock a fr)) [
      | inl unlocked ↦ rw (unlocked, other) (taken (ground arith) rally)
      | inr unlucky ↦ rw unlucky (given (ground arith) rally)
    ]
receiver-Given n now k init a s waiting l fs fr log own h rally = elim (Bool-cases (is_error a)) [
  | inl bad ↦ rw bad (given (ground arith) rally)
  | inr good ↦
      let again : (fr.futex == 1) ≡ false = ground arith in
      rw (good, again) (given (ground arith) rally)
]
receiver-Given n now k init a s asleep l fs fr log own h rally = elim (Bool-cases (is_error a)) [
  | inl bad ↦ rw bad (given (ground arith) rally)
  | inr good ↦ elim (Bool-cases (is_spurious a)) [
    | inl soon ↦ rw (good, soon) (given (ground arith) rally)
    | inr late ↦ rw (good, late) (given h rally)
  ]
]
receiver-Given n now k init a s waking_other l fs fr log own h rally =
    elim (Bool-cases (is_error a)) [
      | inl bad ↦ rw bad (given (ground arith) rally)
      | inr good ↦ rw good (given (ground (arith, IsLockedOut-wake n (suc k) s.pc s.locals)) rally)
    ]
receiver-Given n now k init a s failed l fs fr log own h rally = given h rally
receiver-Given n now k init a s _ l fs fr log own h rally = ground arith

-- The receiver's unlocking of its own word makes it the sender of the next iteration.
pub receiver-Got :
    (n now k init : ℕ) (a : Answer) (s : Thread) (pc : Pc) (l : Locals) (fs fr : Follicle)
    (log : List Event)
    → suc k % 2 ≡ init
    → Got n now k s (record { pc = pc; locals = l }) fs fr
    → GotLog k fr.tsc pc log
    → let m = move n init now a pc l fr fs in
      let log' = event_of init pc m.thread.pc ++ log in
      Turn n now log' k (woken m.wakes s) m.thread m.other m.own
      ⊎ Turn n now log' (suc k) m.thread (woken m.wakes s) m.own m.other
unfolding move
receiver-Got n now k init a s loading l fs fr log own h rally =
    let log' =
      subst (λ (p : ℕ). Rally (suc k) fr.tsc false (got p fr.tsc ∷ log)) own (take_over rally) in
    inl (taken (ground arith) log')
receiver-Got n now k init a s (loaded v) l fs fr log own h rally = elim (received-cases n now v l) [
  | inl (room, e) ↦ rw e (inl (taken (ground arith) rally))
  | inr (full, e) ↦ rw e (inl (taken (ground arith) rally))
]
receiver-Got n now k init a s unlocking l fs fr log own h rally =
    let unlocks : can_unlock fr ≡ true = ground arith in
    let (_, _, _, _, _, _, _, (_, same)) = h in
    let last = subst (λ (t : ℕ). Rally (suc k) t false log) (sym same) rally in
    rw unlocks (inr (free (ground arith) last))
receiver-Got n now k init a s faulted l fs fr log own h rally = inl (taken h rally)
receiver-Got n now k init a s _ l fs fr log own h rally = ground arith
