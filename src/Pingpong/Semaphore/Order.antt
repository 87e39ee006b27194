-- ===== src/Pingpong/Semaphore/Order.antt =====
-- The threads of pingpong.c that share semaphores take turns in every run, without a data race on a
-- stripe.
use Prim.Native.Nat.{suc}
use osjitter.Prelude.{ℕ, ◌+◌, ◌%◌, ◌≡◌, ◌⊎◌, inl, inr, refl, Bool, true, false, List, ◌++◌, arith}
use osjitter.Pingpong.Worker.{Locals}
use osjitter.Pingpong.Rally.{Event, silent}
use osjitter.Pingpong.Semaphore.{
  Pc, top, taking, timing, storing, giving, loading, finished, failed, Thread, Stripe, System,
  move0, move1, moved0, moved1, event_of, first, second, tick, Reach, started, stepped,
}
use osjitter.Pingpong.Semaphore.Phases.{Waits, Sends, Turn, free, held, given, taken}
use osjitter.Pingpong.Semaphore.Steps.{sender-Turn, receiver-Turn}

-- Thread 0 sends in the even iterations, thread 1 in the odd ones.
abbrev pub Alternates : ℕ → System → List Event → Type 0
Alternates n s log =
    (k : ℕ) × (((k % 2 ≡ 0) × Turn n s.now log k s.thread0 s.thread1 s.stripe0 s.stripe1)
      ⊎ ((k % 2 ≡ 1) × Turn n s.now log k s.thread1 s.thread0 s.stripe1 s.stripe0))

move0-Alternates :
    (n : ℕ) (ok : Bool) (s : System) (log : List Event)
    → Alternates n s log
    → Alternates n (move0 n ok s) (event_of 0 s.thread0.pc (moved0 n ok s).thread.pc ++ log)
move0-Alternates n ok s log (k, inl (even, t)) =
    (k, inl (even, sender-Turn n s.now k 0 ok s.thread0 s.thread1 s.stripe0 s.stripe1 log even t))
move0-Alternates n ok s log (k, inr (odd, t)) =
    elim (receiver-Turn n s.now k 0 ok s.thread1 s.thread0 s.stripe1 s.stripe0 log (omega arith)
      t) [ inl same ↦ (k, inr (odd, same)) | inr later ↦ (suc k, inl (omega arith, later)) ]

move1-Alternates :
    (n : ℕ) (ok : Bool) (s : System) (log : List Event)
    → Alternates n s log
    → Alternates n (move1 n ok s) (event_of 1 s.thread1.pc (moved1 n ok s).thread.pc ++ log)
move1-Alternates n ok s log (k, inr (odd, t)) =
    (k, inr (odd, sender-Turn n s.now k 1 ok s.thread1 s.thread0 s.stripe1 s.stripe0 log odd t))
move1-Alternates n ok s log (k, inl (even, t)) =
    elim (receiver-Turn n s.now k 1 ok s.thread0 s.thread1 s.stripe0 s.stripe1 log (omega arith)
      t) [ inl same ↦ (k, inl (even, same)) | inr later ↦ (suc k, inr (omega arith, later)) ]

Sends-later :
    (now d cell : ℕ) (pc : Pc) (l : Locals) → Sends now cell pc l → Sends (now + d) cell pc l
Sends-later now d cell timing l h = h
Sends-later now d cell (storing t) l h = omega arith
Sends-later now d cell giving l h = omega arith
Sends-later now d cell failed l h = h
Sends-later now d cell _ l h = ground arith

Turn-later :
    (n now d k : ℕ) (s r : Thread) (ss sr : Stripe) (log : List Event)
    → Turn n now log k s r ss sr
    → Turn n (now + d) log k s r ss sr
Turn-later n now d k s r ss sr log (free h rally) = free h rally
Turn-later n now d k s r ss sr log (held (h0, h1, h2, h3, h4, h5, h6) rally) =
    held (h0, h1, h2, h3, h4, Sends-later now d sr.tsc s.pc s.locals h5, h6) rally
Turn-later n now d k s r ss sr log (given (h0, h1, h2, h3, h4, h5, h6, h7) rally) =
    given (h0, h1, h2, h3, h4, omega arith, h6, h7) rally
Turn-later n now d k s r ss sr log (taken (h0, h1, h2, h3, h4, h5, h6, h7) rally) =
    taken (h0, h1, h2, h3, h4, omega arith, h6, h7) rally

pub Reach-Alternates : (n : ℕ) (s : System) (log : List Event) → Reach n s log → Alternates n s log
Reach-Alternates n _ _ (started now) = (0, inl (refl, free (ground arith) silent))
Reach-Alternates n _ _ (stepped {s} {log} r (first ok)) =
    move0-Alternates n ok s log (Reach-Alternates n s log r)
Reach-Alternates n _ _ (stepped {s} {log} r (second ok)) =
    move1-Alternates n ok s log (Reach-Alternates n s log r)
Reach-Alternates n _ _ (stepped {s} {log} r (tick d)) =
    let (k, turns) = Reach-Alternates n s log r in
    elim turns [
      | inl (even, t) ↦
          (k, inl (even, Turn-later n s.now d k s.thread0 s.thread1 s.stripe0 s.stripe1 log t))
      | inr (odd, t) ↦
          (k, inr (odd, Turn-later n s.now d k s.thread1 s.thread0 s.stripe1 s.stripe0 log t))
    ]

-- whether the next step of a thread accesses a stripe's `tsc`
abbrev pub accesses : Pc → Bool
accesses (storing t) = true
accesses loading = true
accesses _ = false

Waits-idle : (n k : ℕ) (pc : Pc) (l : Locals) → Waits n k pc l → accesses pc ≡ false
Waits-idle n k top l h = refl
Waits-idle n k taking l h = refl
Waits-idle n k finished l h = refl
Waits-idle n k failed l h = refl
Waits-idle n k _ l h = ground arith

Turn-no_race :
    (n now k : ℕ) (s r : Thread) (ss sr : Stripe) (log : List Event)
    → Turn n now log k s r ss sr
    → (accesses s.pc ≡ false) ⊎ (accesses r.pc ≡ false)
Turn-no_race n now k s r ss sr log (free (h0, h1, h2, h3, h4, h5) _) =
    inr (Waits-idle n k r.pc r.locals h5)
Turn-no_race n now k s r ss sr log (held (h0, h1, h2, h3, h4, h5, h6) _) =
    inr (Waits-idle n k r.pc r.locals h6)
Turn-no_race n now k s r ss sr log (given (h0, h1, h2, h3, h4, h5, h6, h7) _) =
    inr (Waits-idle n k r.pc r.locals h7)
Turn-no_race n now k s r ss sr log (taken (h0, h1, h2, h3, h4, h5, h6, h7) _) =
    inl (Waits-idle n (suc k) s.pc s.locals h6)

-- In no state of any run, whichever calls fail, are both threads before an access of a stripe's
-- `tsc`, which is not atomic.
pub Reach-no_race :
    (n : ℕ) (s : System) (log : List Event)
    → Reach n s log
    → (accesses s.thread0.pc ≡ false) ⊎ (accesses s.thread1.pc ≡ false)
Reach-no_race n s log r =
    let (k, turns) = Reach-Alternates n s log r in
    elim turns [
      | inl (_, t) ↦ Turn-no_race n s.now k s.thread0 s.thread1 s.stripe0 s.stripe1 log t
      | inr (_, t) ↦ elim (Turn-no_race n s.now k s.thread1 s.thread0 s.stripe1 s.stripe0 log t) [
        | inl h ↦ inr h
        | inr h ↦ inl h
      ]
    ]
