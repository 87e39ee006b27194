-- ===== src/Pingpong/Futex/Order.antt =====
-- The threads of pingpong.c that share futexes take turns in every run: they find no word unlocked
-- that should be locked, and neither sleeps for ever, unless a call fails.
use Prim.Native.Nat.{suc}
use osjitter.Prelude.{ℕ, ◌+◌, ◌%◌, ◌≡◌, ◌⊎◌, inl, inr, refl, List, ◌++◌, arith}
use osjitter.Pingpong.Worker.{Answer, Locals}
use osjitter.Pingpong.Rally.{Event, silent}
use osjitter.Pingpong.Futex.{
  Pc, timing, storing, giving, Thread, Follicle, move, woken, System, move0, move1, moved0, moved1,
  event_of, first, second, tick, Reach, started, stepped,
}
use osjitter.Pingpong.Futex.Phases.{Sends, Turn, free, held, given, taken}
use osjitter.Pingpong.Futex.Sender.{sender-Free, sender-Held, sender-Given, sender-Got}
use osjitter.Pingpong.Futex.Receiver.{receiver-Free, receiver-Held, receiver-Given, receiver-Got}

-- Thread 0 sends in the even iterations, thread 1 in the odd ones.
abbrev pub InPhase : ℕ → System → List Event → Type 0
InPhase n s log =
    (k : ℕ) × (((k % 2 ≡ 0) × Turn n s.now log k s.thread0 s.thread1 s.follicle0 s.follicle1)
      ⊎ ((k % 2 ≡ 1) × Turn n s.now log k s.thread1 s.thread0 s.follicle1 s.follicle0))

sender-Turn :
    (n now k init : ℕ) (a : Answer) (s r : Thread) (fs fr : Follicle) (log : List Event)
    → k % 2 ≡ init
    → Turn n now log k s r fs fr
    → let m = move n init now a s.pc s.locals fs fr in
      Turn n now (event_of init s.pc m.thread.pc ++ log) k m.thread (woken m.wakes r) m.own m.other
sender-Turn n now k init a s r fs fr log own (free h rally) =
    sender-Free n now k init a s.pc s.locals r fs fr log own h rally
sender-Turn n now k init a s r fs fr log own (held h rally) =
    sender-Held n now k init a s.pc s.locals r fs fr log own h rally
sender-Turn n now k init a s r fs fr log own (given h rally) =
    sender-Given n now k init a s.pc s.locals r fs fr log h rally
sender-Turn n now k init a s r fs fr log own (taken h rally) =
    sender-Got n now k init a s.pc s.locals r fs fr log h rally

receiver-Turn :
    (n now k init : ℕ) (a : Answer) (s r : Thread) (fs fr : Follicle) (log : List Event)
    → suc k % 2 ≡ init
    → Turn n now log k s r fs fr
    → let m = move n init now a r.pc r.locals fr fs in
      let log' = event_of init r.pc m.thread.pc ++ log in
      Turn n now log' k (woken m.wakes s) m.thread m.other m.own
      ⊎ Turn n now log' (suc k) m.thread (woken m.wakes s) m.own m.other
receiver-Turn n now k init a s r fs fr log own (free h rally) =
    inl (receiver-Free n now k init a s r.pc r.locals fs fr log h rally)
receiver-Turn n now k init a s r fs fr log own (held h rally) =
    inl (receiver-Held n now k init a s r.pc r.locals fs fr log h rally)
receiver-Turn n now k init a s r fs fr log own (given h rally) =
    inl (receiver-Given n now k init a s r.pc r.locals fs fr log (omega arith) h rally)
receiver-Turn n now k init a s r fs fr log own (taken h rally) =
    receiver-Got n now k init a s r.pc r.locals fs fr log own h rally

move0-InPhase :
    (n : ℕ) (a : Answer) (s : System) (log : List Event)
    → InPhase n s log
    → InPhase n (move0 n a s) (event_of 0 s.thread0.pc (moved0 n a s).thread.pc ++ log)
move0-InPhase n a s log (k, inl (even, t)) = (
  k,
  inl (even, sender-Turn n s.now k 0 a s.thread0 s.thread1 s.follicle0 s.follicle1 log even t),
)
move0-InPhase n a s log (k, inr (odd, t)) =
    let next =
      receiver-Turn n s.now k 0 a s.thread1 s.thread0 s.follicle1 s.follicle0 log (omega arith) t in
    elim next [ inl same ↦ (k, inr (odd, same)) | inr later ↦ (suc k, inl (omega arith, later)) ]

move1-InPhase :
    (n : ℕ) (a : Answer) (s : System) (log : List Event)
    → InPhase n s log
    → InPhase n (move1 n a s) (event_of 1 s.thread1.pc (moved1 n a s).thread.pc ++ log)
move1-InPhase n a s log (k, inr (odd, t)) =
    (k, inr (odd, sender-Turn n s.now k 1 a s.thread1 s.thread0 s.follicle1 s.follicle0 log odd t))
move1-InPhase n a s log (k, inl (even, t)) =
    let next =
      receiver-Turn n s.now k 1 a s.thread0 s.thread1 s.follicle0 s.follicle1 log (omega arith) t in
    elim next [ inl same ↦ (k, inl (even, same)) | inr later ↦ (suc k, inr (omega arith, later)) ]

Sends-later :
    (now d cell : ℕ) (pc : Pc) (l : Locals) → Sends now cell pc l → Sends (now + d) cell pc l
Sends-later now d cell timing l h = h
Sends-later now d cell (storing t) l h = omega arith
Sends-later now d cell giving l h = omega arith
Sends-later now d cell _ l h = ground arith

Turn-later :
    (n now d k : ℕ) (s r : Thread) (fs fr : Follicle) (log : List Event)
    → Turn n now log k s r fs fr
    → Turn n (now + d) log k s r fs fr
Turn-later n now d k s r fs fr log (free h rally) = free h rally
Turn-later n now d k s r fs fr log (held (h0, h1, h2, h3, h4, h5, h6) rally) =
    held (h0, h1, h2, h3, h4, Sends-later now d fr.tsc s.pc s.locals h5, h6) rally
Turn-later n now d k s r fs fr log (given (h0, h1, h2, h3, h4, h5, h6, h7) rally) =
    given (h0, h1, h2, h3, h4, omega arith, h6, h7) rally
Turn-later n now d k s r fs fr log (taken (h0, h1, h2, h3, h4, h5, h6, h7) rally) =
    taken (h0, h1, h2, h3, h4, omega arith, h6, h7) rally

-- In every state of every run, whichever calls fail, the threads take turns: for some k the sender of
-- iteration k is before its lock, has its own word locked, has unlocked the receiver's word, or the
-- receiver has locked that again; the words and the cells hold what this phase says, each thread
-- stands where it allows, and the events are those of a rally.
pub Reach-InPhase : (n : ℕ) (s : System) (log : List Event) → Reach n s log → InPhase n s log
Reach-InPhase n _ _ (started now) = (0, inl (refl, free (ground arith) silent))
Reach-InPhase n _ _ (stepped {s} {log} r (first a)) =
    move0-InPhase n a s log (Reach-InPhase n s log r)
Reach-InPhase n _ _ (stepped {s} {log} r (second a)) =
    move1-InPhase n a s log (Reach-InPhase n s log r)
Reach-InPhase n _ _ (stepped {s} {log} r (tick d)) =
    let (k, turns) = Reach-InPhase n s log r in
    elim turns [
      | inl (even, t) ↦
          (k, inl (even, Turn-later n s.now d k s.thread0 s.thread1 s.follicle0 s.follicle1 log t))
      | inr (odd, t) ↦
          (k, inr (odd, Turn-later n s.now d k s.thread1 s.thread0 s.follicle1 s.follicle0 log t))
    ]
