-- ===== src/Pingpong/Condvar/Sender.antt =====
-- The steps of the sender of an iteration, for the threads of pingpong.c that use condition variables.
use Prim.Native.Nat.{suc}
use mathlib.Core.Path.{subst}
use osjitter.Prelude.{
  ℕ, ◌%◌, ◌≤◌, ◌<◌, ◌≡◌, sym, inl, inr, refl, Bool, true, false, List, ◌∷◌, ◌++◌, arith, ltb, leb,
  Bool-cases,
}
use osjitter.Pingpong.Worker.{Locals, is_sender, Answer, is_error}
use osjitter.Pingpong.Rally.{Event, sent, Rally, serve, Rally-silent}
use osjitter.Pingpong.Condvar.{
  Pc, top, timing, acquiring, storing, releasing, signalling, locking, waiting, relocking, finished,
  failed, Thread, Item, move, event_of,
}
use osjitter.Pingpong.Condvar.Phases.{
  CanSend, Waits, Finds, Holds, Times, Turn, free, held, stored, given, got, Waits-move,
}

sender-free :
    (n now k init : ℕ) (a : Answer) (pc : Pc) (l : Locals) (r : Thread) (ss sr : Item)
    (log : List Event)
    → k % 2 ≡ init
    → k ≤ n
    → Times (record { pc = pc; locals = l }) r ss
    → sr.tsc ≤ r.locals.tsc
    → ss.locked ≡ false
    → CanSend n now k pc l
    → Waits n k sr.locked r.pc r.locals
    → Rally k l.tsc false log
    → let m = move n init now a pc l ss sr in
      Turn n now (event_of init pc m.thread.pc ++ log) k m.thread r m.own m.other
unfolding move
sender-free n now k init a top l r ss sr log own room times old shut i waits rally =
    elim (Bool-cases (ltb l.i n)) [
      | inl more ↦
          let mine : is_sender init l.i ≡ true = ground arith in
          rw (more, mine) (free room times old shut (ground (arith, more)) waits rally)
      | inr over ↦ rw over (free room times old shut (ground (arith, over)) waits rally)
    ]
sender-free n now k init a timing l r ss sr log own room times old shut i waits rally =
    elim (Bool-cases (leb now l.tsc)) [
      | inl early ↦ rw early (free room times old shut i waits rally)
      | inr later ↦ rw later (free room times old shut (ground (arith, later)) waits rally)
    ]
sender-free n now k init a (acquiring t) l r ss sr log own room times old shut i waits rally =
    elim (Bool-cases (is_error a)) [
      | inl bad ↦ rw bad (free room times old shut tt waits rally)
      | inr good ↦ elim (Bool-cases sr.locked) [
        | inl taken ↦
            let waits' = subst (λ b. Waits n k b r.pc r.locals) taken waits in
            rw (good, taken) (free room times old shut i waits' rally)
        | inr unlocked ↦
            let waits' = subst (λ b. Waits n k b r.pc r.locals) unlocked waits in
            rw (good, unlocked) (held t refl i times old (shut, refl) waits' rally)
      ]
    ]
sender-free n now k init a failed l r ss sr log own room times old shut i waits rally =
    free room times old shut i waits rally
sender-free n now k init a finished l r ss sr log own room times old shut i waits rally =
    free room times old shut i waits rally
sender-free n now k init a _ l r ss sr log own room times old shut i waits rally = ground arith

sender-held :
    (n now k init : ℕ) (a : Answer) (t : ℕ) (l : Locals) (r : Thread) (ss sr : Item)
    (log : List Event)
    → k % 2 ≡ init
    → (l.i ≡ k) × (k < n) × (l.tsc < t) × (t ≤ now)
    → Times (record { pc = storing t; locals = l }) r ss
    → (ss.locked ≡ false) × (sr.locked ≡ true)
    → Waits n k false r.pc r.locals
    → Rally k l.tsc false log
    → let m = move n init now a (storing t) l ss sr in
      Turn n now (event_of init (storing t) m.thread.pc ++ log) k m.thread r m.own m.other
unfolding move
sender-held n now k init a t l r ss sr log own (i, more, new, old) times locks waits rally =
    let served = subst (λ (p : ℕ). Rally (suc k) t true (sent p t ∷ log)) own (serve rally new) in
    stored (inl refl) (i, more, new, old) times locks waits served

Waits-Finds : (n k : ℕ) (pc : Pc) (l : Locals) → Waits n k false pc l → Finds n k false pc l
Waits-Finds n k top l h = h
Waits-Finds n k signalling l h = h
Waits-Finds n k locking l h = h
Waits-Finds n k waiting l h = h
Waits-Finds n k relocking l h = h
Waits-Finds n k finished l h = h
Waits-Finds n k failed l h = h
Waits-Finds n k _ l h = ground arith

sender-stored :
    (n now k init : ℕ) (a : Answer) (l : Locals) (r : Thread) (ss sr : Item) (log : List Event)
    → (l.i ≡ k) × (k < n) × (l.tsc < sr.tsc) × (sr.tsc ≤ now)
    → Times (record { pc = releasing; locals = l }) r ss
    → (ss.locked ≡ false) × (sr.locked ≡ true)
    → Waits n k false r.pc r.locals
    → Rally (suc k) sr.tsc true log
    → let m = move n init now a releasing l ss sr in
      Turn n now (event_of init releasing m.thread.pc ++ log) k m.thread r m.own m.other
unfolding move
sender-stored n now k init a l r ss sr log (i, more, new, old) times locks waits rally =
    elim (Bool-cases (is_error a)) [
      | inl bad ↦ rw bad (stored (inr refl) (i, more, new, old) times locks waits rally)
      | inr good ↦ rw good (
          given (more, new, old) times (omega arith, locks.0) (Waits-Finds n k r.pc r.locals waits)
            (λ w e. refl) rally)
    ]

-- A sender that has failed to unlock the mutex has stopped.
sender-stuck :
    (n now k init : ℕ) (a : Answer) (l : Locals) (r : Thread) (ss sr : Item) (log : List Event)
    → (l.i ≡ k) × (k < n) × (l.tsc < sr.tsc) × (sr.tsc ≤ now)
    → Times (record { pc = failed; locals = l }) r ss
    → (ss.locked ≡ false) × (sr.locked ≡ true)
    → Waits n k false r.pc r.locals
    → Rally (suc k) sr.tsc true log
    → let m = move n init now a failed l ss sr in
      Turn n now (event_of init failed m.thread.pc ++ log) k m.thread r m.own m.other
unfolding move
sender-stuck n now k init a l r ss sr log i times locks waits rally =
    stored (inr refl) i times locks waits rally

Holds-eq :
    (k : ℕ) (pc : Pc) (l : Locals) {t t' : ℕ} {b b' : Bool}
    → t ≡ t'
    → b ≡ b'
    → Holds k t b pc l
    → Holds k t' b' pc l
Holds-eq k pc l {t} {t'} {b} {b'} e e' h =
    let at_t = subst (λ (x : ℕ). Holds k x b pc l) e h in
    subst (λ (c : Bool). Holds k t' c pc l) e' at_t

-- A step of the sender keeps the turn.
pub sender-Turn :
    (n now k init : ℕ) (a : Answer) (s r : Thread) (ss sr : Item) (log : List Event)
    → k % 2 ≡ init
    → Turn n now log k s r ss sr
    → let m = move n init now a s.pc s.locals ss sr in
      Turn n now (event_of init s.pc m.thread.pc ++ log) k m.thread r m.own m.other
sender-Turn n now k init a s r ss sr log own (free room times old shut i waits rally) =
    sender-free n now k init a s.pc s.locals r ss sr log own room times old shut i waits rally
sender-Turn n now k init a s r ss sr log own (held t at_t i times old locks waits rally) =
    subst
      (λ (pc : Pc).
        let m = move n init now a pc s.locals ss sr in
        Turn n now (event_of init pc m.thread.pc ++ log) k m.thread r m.own m.other)
      (sym at_t) (sender-held n now k init a t s.locals r ss sr log own i times locks waits rally)
sender-Turn n now k init a s r ss sr log own (stored (inl at_release) i times locks waits rally) =
    subst
      (λ (pc : Pc).
        let m = move n init now a pc s.locals ss sr in
        Turn n now (event_of init pc m.thread.pc ++ log) k m.thread r m.own m.other)
      (sym at_release) (sender-stored n now k init a s.locals r ss sr log i times locks waits rally)
sender-Turn n now k init a s r ss sr log own (stored (inr stuck) i times locks waits rally) =
    subst
      (λ (pc : Pc).
        let m = move n init now a pc s.locals ss sr in
        Turn n now (event_of init pc m.thread.pc ++ log) k m.thread r m.own m.other)
      (sym stuck) (sender-stuck n now k init a s.locals r ss sr log i times locks waits rally)
sender-Turn n now k init a s r ss sr log own (given i times waits finds heard rally) =
    let (waits', (e0, e1, e2, e3, silent, hears)) =
      Waits-move n now (suc k) init a s.pc s.locals ss sr (omega arith) times.1 waits in
    given (omega (arith, i)) (omega arith, omega arith) waits'
      (subst (λ (b : Bool). Finds n k b r.pc r.locals) (sym e2) finds)
      (λ w e. (hears e).1 (heard w (hears e).0)) (Rally-silent silent e3 rally)
sender-Turn n now k init a s r ss sr log own (got i times waits holds rally) =
    let (waits', (e0, e1, e2, e3, silent, hears)) =
      Waits-move n now (suc k) init a s.pc s.locals ss sr (omega arith) times.1 waits in
    got (omega (arith, i)) (omega arith, omega arith) waits'
      (Holds-eq k r.pc r.locals (sym e3) (sym e2) holds) (Rally-silent silent e3 rally)
