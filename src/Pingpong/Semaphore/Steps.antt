-- ===== src/Pingpong/Semaphore/Steps.antt =====
-- The steps of the sender and of the receiver of an iteration, of the two threads of pingpong.c that
-- share semaphores.
use Prim.Native.Nat.{suc}
use mathlib.Core.Path.{subst}
use osjitter.Prelude.{
  ℕ, ◌%◌, ◌≡◌, ◌≢◌, ◌⊎◌, sym, inl, inr, refl, Bool, true, false, List, [], ◌∷◌, ◌++◌, arith, ltb,
  leb, ◌==◌, Bool-cases,
}
use osjitter.Pingpong.Worker.{Locals, is_sender}
use osjitter.Pingpong.Worker.Room.{received-cases}
use osjitter.Pingpong.Rally.{Event, sent, got, Rally, serve, take_over}
use osjitter.Pingpong.Semaphore.{
  Pc, top, taking, timing, storing, giving, loading, loaded, posting, finished, failed, faulted,
  Thread, Stripe, Moved, move, event_of,
}
use osjitter.Pingpong.Semaphore.Phases.{
  Waits, Free, Held, Given, Got, HeldLog, GotLog, Turn, free, held, given, taken,
}

-- A thread whose semaphore is 0 changes at most its place.
Waits-move :
    (n now k init : ℕ) (ok : Bool) (pc : Pc) (l : Locals) (own other : Stripe)
    → own.sem ≡ 0
    → Waits n k pc l
    → (pc' : Pc) × (move n init now ok pc l own other
        ≡ record { thread = record { pc = pc'; locals = l }; own = own; other = other })
      × Waits n k pc' l
      × (event_of init pc pc' ≡ [])
unfolding move
Waits-move n now k init ok top l own other empty h = elim (Bool-cases (ltb l.i n)) [
  | inl more ↦ (taking, rw more refl, ground (arith, more), refl)
  | inr over ↦ (finished, rw over refl, ground (arith, over), refl)
]
Waits-move n now k init true taking l own other empty h =
    let blocks : (own.sem == 0) ≡ true = ground arith in (taking, rw blocks refl, h, refl)
Waits-move n now k init false taking l own other empty h = (failed, refl, h.0, refl)
Waits-move n now k init ok finished l own other empty h = (finished, refl, h, refl)
Waits-move n now k init ok failed l own other empty h = (failed, refl, h, refl)
Waits-move n now k init ok _ l own other empty h = ground arith

-- Such a step keeps what holds of the thread, if that is no more than `Waits`.
waiting-keeps :
    (P : List Event → Thread → Stripe → Stripe → Type 0) (n now k init : ℕ) (ok : Bool)
    (log : List Event) (th : Thread) (own other : Stripe)
    → own.sem ≡ 0
    → Waits n k th.pc th.locals
    → ((pc' : Pc)
        → Waits n k pc' th.locals
        → P log (record { pc = pc'; locals = th.locals }) own other)
    → let m = move n init now ok th.pc th.locals own other in
      P (event_of init th.pc m.thread.pc ++ log) m.thread m.own m.other
waiting-keeps P n now k init ok log th own other empty h keeps =
    let (pc', e, waits, silent) = Waits-move n now k init ok th.pc th.locals own other empty h in
    subst (λ (m : Moved). P (event_of init th.pc m.thread.pc ++ log) m.thread m.own m.other) (sym e)
      (rw silent (keeps pc' waits))

sender-Free :
    (n now k init : ℕ) (ok : Bool) (pc : Pc) (l : Locals) (r : Thread) (ss sr : Stripe)
    (log : List Event)
    → k % 2 ≡ init
    → Free n k (record { pc = pc; locals = l }) r ss sr
    → Rally k l.tsc false log
    → let m = move n init now ok pc l ss sr in
      Turn n now (event_of init pc m.thread.pc ++ log) k m.thread r m.own m.other
unfolding move
sender-Free n now k init ok top l r ss sr log own h rally = elim (Bool-cases (ltb l.i n)) [
  | inl more ↦ rw more (free (ground (arith, more)) rally)
  | inr over ↦ rw over (free (ground (arith, over)) rally)
]
sender-Free n now k init true taking l r ss sr log own h rally =
    let opens : (ss.sem == 0) ≡ false = ground arith in
    let mine : is_sender init l.i ≡ true = ground arith in
    rw (opens, mine) (held (ground arith) rally)
sender-Free n now k init false taking l r ss sr log own h rally = free (ground arith) rally
sender-Free n now k init ok finished l r ss sr log own h rally = free h rally
sender-Free n now k init ok failed l r ss sr log own h rally = free h rally
sender-Free n now k init ok _ l r ss sr log own h rally = ground arith

sender-Held :
    (n now k init : ℕ) (ok : Bool) (pc : Pc) (l : Locals) (r : Thread) (ss sr : Stripe)
    (log : List Event)
    → k % 2 ≡ init
    → Held n now k (record { pc = pc; locals = l }) r ss sr
    → HeldLog k sr.tsc pc l log
    → let m = move n init now ok pc l ss sr in
      Turn n now (event_of init pc m.thread.pc ++ log) k m.thread r m.own m.other
unfolding move
sender-Held n now k init ok timing l r ss sr log own h rally = elim (Bool-cases (leb now l.tsc)) [
  | inl early ↦ rw early (held h rally)
  | inr later ↦ rw later (held (ground (arith, later)) rally)
]
sender-Held n now k init ok (storing t) l r ss sr log own h rally =
    let (_, _, _, _, _, (new, _), _) = h in
    let served = subst (λ (p : ℕ). Rally (suc k) t true (sent p t ∷ log)) own (serve rally new) in
    held (ground arith) served
sender-Held n now k init true giving l r ss sr log own h rally = given (ground arith) rally
sender-Held n now k init false giving l r ss sr log own h rally = held (ground arith) rally
sender-Held n now k init ok failed l r ss sr log own h rally = held h rally
sender-Held n now k init ok _ l r ss sr log own h rally = ground arith

pub sender-Turn :
    (n now k init : ℕ) (ok : Bool) (s r : Thread) (ss sr : Stripe) (log : List Event)
    → k % 2 ≡ init
    → Turn n now log k s r ss sr
    → let m = move n init now ok s.pc s.locals ss sr in
      Turn n now (event_of init s.pc m.thread.pc ++ log) k m.thread r m.own m.other
sender-Turn n now k init ok s r ss sr log own (free h rally) =
    sender-Free n now k init ok s.pc s.locals r ss sr log own h rally
sender-Turn n now k init ok s r ss sr log own (held h rally) =
    sender-Held n now k init ok s.pc s.locals r ss sr log own h rally
sender-Turn n now k init ok s r ss sr log own (given (h0, h1, h2, h3, h4, h5, h6, h7) rally) =
    waiting-keeps (λ log' x a b. Turn n now log' k x r a b) n now (suc k) init ok log s ss sr h0 h6
      λ pc' h. given (h0, h1, h2, h3, h4, h5, h, h7) rally
sender-Turn n now k init ok s r ss sr log own (taken (h0, h1, h2, h3, h4, h5, h6, h7) rally) =
    waiting-keeps (λ log' x a b. Turn n now log' k x r a b) n now (suc k) init ok log s ss sr h0 h6
      λ pc' h. taken (h0, h1, h2, h3, h4, h5, h, h7) rally

receiver-Given :
    (n now k init : ℕ) (ok : Bool) (s : Thread) (pc : Pc) (l : Locals) (ss sr : Stripe)
    (log : List Event)
    → k % 2 ≢ init
    → Given n now k s (record { pc = pc; locals = l }) ss sr
    → Rally (suc k) sr.tsc true log
    → let m = move n init now ok pc l sr ss in
      Turn n now (event_of init pc m.thread.pc ++ log) k s m.thread m.other m.own
unfolding move
receiver-Given n now k init ok s top l ss sr log own h rally =
    let more : ltb l.i n ≡ true = ground arith in rw more (given (ground arith) rally)
receiver-Given n now k init true s taking l ss sr log own h rally =
    let opens : (sr.sem == 0) ≡ false = ground arith in
    let other : is_sender init l.i ≡ false = ground arith in
    rw (opens, other) (taken (ground arith) rally)
receiver-Given n now k init false s taking l ss sr log own h rally = given (ground arith) rally
receiver-Given n now k init ok s failed l ss sr log own h rally = given h rally
receiver-Given n now k init ok s _ l ss sr log own h rally = ground arith

-- The receiver's post makes it the sender of the next iteration.
receiver-Got :
    (n now k init : ℕ) (ok : Bool) (s : Thread) (pc : Pc) (l : Locals) (ss sr : Stripe)
    (log : List Event)
    → suc k % 2 ≡ init
    → Got n now k s (record { pc = pc; locals = l }) ss sr
    → GotLog k sr.tsc pc log
    → let m = move n init now ok pc l sr ss in
      let log' = event_of init pc m.thread.pc ++ log in
      Turn n now log' k s m.thread m.other m.own ⊎ Turn n now log' (suc k) m.thread s m.own m.other
unfolding move
receiver-Got n now k init ok s loading l ss sr log own h rally =
    let log' =
      subst (λ (p : ℕ). Rally (suc k) sr.tsc false (got p sr.tsc ∷ log)) own (take_over rally) in
    inl (taken (ground arith) log')
receiver-Got n now k init ok s (loaded v) l ss sr log own h rally =
    elim (received-cases n now v l) [
      | inl (room, e) ↦ rw e (inl (taken (ground arith) rally))
      | inr (full, e) ↦ rw e (inl (taken (ground arith) rally))
    ]
receiver-Got n now k init true s posting l ss sr log own h rally =
    let (_, _, _, _, _, _, _, (_, same)) = h in
    inr (free (ground arith) (subst (λ (t : ℕ). Rally (suc k) t false log) (sym same) rally))
receiver-Got n now k init false s posting l ss sr log own h rally = inl (taken (ground arith) rally)
receiver-Got n now k init ok s failed l ss sr log own h rally = inl (taken h rally)
receiver-Got n now k init ok s faulted l ss sr log own h rally = inl (taken h rally)
receiver-Got n now k init ok s _ l ss sr log own h rally = ground arith

pub receiver-Turn :
    (n now k init : ℕ) (ok : Bool) (s r : Thread) (ss sr : Stripe) (log : List Event)
    → suc k % 2 ≡ init
    → Turn n now log k s r ss sr
    → let m = move n init now ok r.pc r.locals sr ss in
      let log' = event_of init r.pc m.thread.pc ++ log in
      Turn n now log' k s m.thread m.other m.own ⊎ Turn n now log' (suc k) m.thread s m.own m.other
receiver-Turn n now k init ok s r ss sr log own (free (h0, h1, h2, h3, h4, h5) rally) = inl (
    waiting-keeps (λ log' x a b. Turn n now log' k s x b a) n now k init ok log r sr ss h1 h5
      λ pc' h. free (h0, h1, h2, h3, h4, h) rally)
receiver-Turn n now k init ok s r ss sr log own (held (h0, h1, h2, h3, h4, h5, h6) rally) = inl (
    waiting-keeps (λ log' x a b. Turn n now log' k s x b a) n now k init ok log r sr ss h1 h6
      λ pc' h. held (h0, h1, h2, h3, h4, h5, h) rally)
receiver-Turn n now k init ok s r ss sr log own (given h rally) =
    inl (receiver-Given n now k init ok s r.pc r.locals ss sr log (omega arith) h rally)
receiver-Turn n now k init ok s r ss sr log own (taken h rally) =
    receiver-Got n now k init ok s r.pc r.locals ss sr log own h rally
