-- ===== src/Pingpong/Futex/Sender.antt =====
-- The steps of the sender of an iteration, of the two threads of pingpong.c that share futexes.
use Prim.Native.Nat.{suc}
use mathlib.Core.Path.{subst}
use osjitter.Prelude.{
  ℕ, ◌%◌, ◌≡◌, ap, ◌∙◌, inl, inr, true, false, List, ◌∷◌, ◌++◌, arith, ltb, leb, ◌==◌, Bool-cases,
}
use osjitter.Pingpong.Worker.{Answer, is_error, Locals, is_sender}
use osjitter.Pingpong.Rally.{Event, sent, Rally, serve}
use osjitter.Pingpong.Futex.{
  Pc, top, locking, waiting, timing, storing, giving, waking, finished, failed, Thread, Follicle,
  can_lock, can_unlock, move, wake, woken, event_of,
}
use osjitter.Pingpong.Futex.Phases.{
  CanReceive, Free, Held, Given, Got, HeldLog, GotLog, Turn, free, held, given, taken,
}
use osjitter.Pingpong.Futex.Waiting.{
  can_receive, CanReceive-wake, CanReceive-no_wake, Receives-wake, GotLog-wake, IsLockedOut-move,
}

pub sender-Free :
    (n now k init : ℕ) (a : Answer) (pc : Pc) (l : Locals) (r : Thread) (fs fr : Follicle)
    (log : List Event)
    → k % 2 ≡ init
    → Free n k (record { pc = pc; locals = l }) r fs fr
    → Rally k l.tsc false log
    → let m = move n init now a pc l fs fr in
      Turn n now (event_of init pc m.thread.pc ++ log) k m.thread (woken m.wakes r) m.own m.other
unfolding move
sender-Free n now k init a top l r fs fr log own h rally = elim (Bool-cases (ltb l.i n)) [
  | inl more ↦ rw more (free (ground (arith, more)) rally)
  | inr over ↦ rw over (free (ground (arith, over)) rally)
]
sender-Free n now k init a locking l r fs fr log own h rally = elim (Bool-cases (can_lock a fs)) [
  | inl unlocked ↦
      let mine : is_sender init l.i ≡ true = ground arith in
      rw (unlocked, mine) (held (ground arith) rally)
  | inr shut ↦ rw shut (free (ground arith) rally)
]
sender-Free n now k init a waiting l r fs fr log own h rally = elim (Bool-cases (is_error a)) [
  | inl bad ↦ rw bad (free (ground arith) rally)
  | inr good ↦
      let zero : (fs.futex == 1) ≡ false = ground arith in
      rw (good, zero) (free (ground arith) rally)
]
sender-Free n now k init a waking l r fs fr log own h rally = elim (Bool-cases (is_error a)) [
  | inl bad ↦ rw bad (free (ground arith) rally)
  | inr good ↦ rw good (free (ground arith) rally)
]
sender-Free n now k init a finished l r fs fr log own h rally = free h rally
sender-Free n now k init a failed l r fs fr log own h rally = free h rally
sender-Free n now k init a _ l r fs fr log own h rally = ground arith

pub sender-Held :
    (n now k init : ℕ) (a : Answer) (pc : Pc) (l : Locals) (r : Thread) (fs fr : Follicle)
    (log : List Event)
    → k % 2 ≡ init
    → Held n now k (record { pc = pc; locals = l }) r fs fr
    → HeldLog k fr.tsc pc l log
    → let m = move n init now a pc l fs fr in
      Turn n now (event_of init pc m.thread.pc ++ log) k m.thread (woken m.wakes r) m.own m.other
unfolding move
sender-Held n now k init a timing l r fs fr log own h rally = elim (Bool-cases (leb now l.tsc)) [
  | inl early ↦ rw early (held h rally)
  | inr later ↦ rw later (held (ground (arith, later)) rally)
]
sender-Held n now k init a (storing t) l r fs fr log own h rally =
    let (_, _, _, _, _, (new, _), _) = h in
    let served = subst (λ (p : ℕ). Rally (suc k) t true (sent p t ∷ log)) own (serve rally new) in
    held (ground arith) served
sender-Held n now k init a giving l r fs fr log own h rally =
    let unlocks : can_unlock fr ≡ true = ground arith in
    rw unlocks (given (ground (arith, can_receive n k r.pc r.locals)) rally)
sender-Held n now k init a _ l r fs fr log own h rally = ground arith

pub sender-Given :
    (n now k init : ℕ) (a : Answer) (pc : Pc) (l : Locals) (r : Thread) (fs fr : Follicle)
    (log : List Event)
    → Given n now k (record { pc = pc; locals = l }) r fs fr
    → Rally (suc k) fr.tsc true log
    → let m = move n init now a pc l fs fr in
      Turn n now (event_of init pc m.thread.pc ++ log) k m.thread (woken m.wakes r) m.own m.other
sender-Given n now k init a pc l r fs fr log (h0, h1, h2, h3, h4, h5, h6, h7) rally =
    let m = move n init now a pc l fs fr in
    let (out, same_tsc, own, other, wakes, silent) =
      IsLockedOut-move n now (suc k) init a pc l fs fr h0 h6 in
    let same_cell = ap (λ (f : Follicle). f.tsc) other in
    let receive : CanReceive k m.thread.pc (wake m.wakes r.pc) r.locals = elim wakes [
      | inl woke ↦ rw woke (CanReceive-wake k pc m.thread.pc r.pc r.locals h7)
      | inr (no_wake, stays) ↦
          rw no_wake (CanReceive-no_wake k pc m.thread.pc r.pc r.locals stays h7)
    ] in
    rw silent (
      given
        (
          ap (λ (f : Follicle). f.futex) own ∙ h0,
          ap (λ (f : Follicle). f.futex) other ∙ h1,
          omega arith,
          h3,
          omega arith,
          omega arith,
          out,
          receive,
        )
        (rw same_cell rally))

pub sender-Got :
    (n now k init : ℕ) (a : Answer) (pc : Pc) (l : Locals) (r : Thread) (fs fr : Follicle)
    (log : List Event)
    → Got n now k (record { pc = pc; locals = l }) r fs fr
    → GotLog k fr.tsc r.pc log
    → let m = move n init now a pc l fs fr in
      Turn n now (event_of init pc m.thread.pc ++ log) k m.thread (woken m.wakes r) m.own m.other
sender-Got n now k init a pc l r fs fr log (h0, h1, h2, h3, h4, h5, h6, h7) rally =
    let m = move n init now a pc l fs fr in
    let (out, same_tsc, own, other, wakes, silent) =
      IsLockedOut-move n now (suc k) init a pc l fs fr h0 h6 in
    let same_cell = ap (λ (f : Follicle). f.tsc) other in
    rw silent (
      taken
        (
          ap (λ (f : Follicle). f.futex) own ∙ h0,
          ap (λ (f : Follicle). f.futex) other ∙ h1,
          h2,
          h3,
          omega arith,
          omega arith,
          out,
          rw (same_tsc, same_cell) (Receives-wake l.tsc fr.tsc m.wakes r.pc r.locals h7),
        )
        (rw same_cell (GotLog-wake k fr.tsc m.wakes r.pc log rally)))
