-- ===== src/Pingpong/Pipe/Phases.antt =====
-- The phases of an iteration of the two threads of pingpong.c that use pipes, and the steps of its
-- sender and of its receiver.
use Prim.Native.Nat.{suc}
use mathlib.Core.Path.{subst}
use osjitter.Prelude.{
  ℕ, ◌%◌, ◌≤◌, ◌<◌, ◌≡◌, ◌≢◌, ◌⊎◌, sym, inl, inr, refl, Bool, true, false, List, [], ◌∷◌, ◌++◌,
  arith, ltb, leb, Bool-cases,
}
use osjitter.Pingpong.Worker.{Locals, is_sender}
use osjitter.Pingpong.Worker.Room.{received-cases}
use osjitter.Pingpong.Rally.{Event, sent, got, Rally, serve, take_over}
use osjitter.Pingpong.Pipe.{
  Pc, top, timing, writing, reading, loaded, finished, failed, faulted, Thread, Moved, move,
  event_of,
}

-- the sender of an iteration, before its `write`
abbrev pub CanSend : ℕ → ℕ → Pc → Locals → Type 0
CanSend n now top l = Unit
CanSend n now timing l = l.i < n
CanSend n now (writing t) l = (l.tsc < t) × (t ≤ now) × (l.i < n)
CanSend n now finished l = n ≤ l.i
CanSend n now failed l = Unit
CanSend n now _ l = ⊥

-- a thread that has nothing to read
abbrev pub Waits : ℕ → Pc → Locals → Type 0
Waits n top l = Unit
Waits n reading l = l.i < n
Waits n finished l = n ≤ l.i
Waits n failed l = Unit
Waits n _ l = ⊥

-- the receiver behind its `read` of the time t
abbrev pub Holds : ℕ → Pc → Type 0
Holds t (loaded v) = v ≡ t
Holds t faulted = Unit
Holds t _ = ⊥

abbrev pub Before : ℕ → ℕ → List Event → ℕ → Thread → Thread → Type 0
Before n now log k s r =
    (s.locals.i ≡ k)
    × (r.locals.i ≡ k)
    × (r.locals.tsc ≤ s.locals.tsc)
    × (k ≤ n)
    × CanSend n now s.pc s.locals
    × Waits n r.pc r.locals
    × Rally k s.locals.tsc false log

abbrev pub Behind : ℕ → ℕ → ℕ → ℕ → Thread → Thread → Type 0
Behind n now k t s r =
    (s.locals.i ≡ suc k)
    × (r.locals.i ≡ k)
    × (k < n)
    × (s.locals.tsc < t)
    × (t ≤ now)
    × Waits n s.pc s.locals

-- `s` is the sender of iteration k, and `r` its receiver; then what their pipes hold.
pub data Turn (n now : ℕ) (log : List Event) (k : ℕ) (s r : Thread) : List ℕ → List ℕ → Type 0 where
  before : Before n now log k s r → Turn n now log k s r [] []
  flying :
      {t : ℕ}
      → Behind n now k t s r
      → Waits n r.pc r.locals
      → Rally (suc k) t true log
      → Turn n now log k s r [] (t ∷ [])
  taken_out :
      (t : ℕ)
      → Behind n now k t s r
      → Holds t r.pc
      → Rally (suc k) t false log
      → Turn n now log k s r [] []

-- A thread that waits, with nothing to read, changes at most its place.
Waits-move :
    (n now init : ℕ) (ok : Bool) (pc : Pc) (l : Locals) (other : List ℕ)
    → l.i % 2 ≢ init
    → Waits n pc l
    → (pc' : Pc) × (move n init now ok pc l [] other
        ≡ record { thread = record { pc = pc'; locals = l }; own = []; other = other })
      × Waits n pc' l
      × (event_of init pc pc' ≡ [])
unfolding move
Waits-move n now init ok top l other turn h = elim (Bool-cases (ltb l.i n)) [
  | inl more ↦
      let not_mine : is_sender init l.i ≡ false = ground arith in
      (reading, rw (more, not_mine) refl, ground (arith, more), refl)
  | inr over ↦ (finished, rw over refl, ground (arith, over), refl)
]
Waits-move n now init true reading l other turn h = (reading, refl, h, refl)
Waits-move n now init false reading l other turn h = (failed, refl, tt, refl)
Waits-move n now init ok finished l other turn h = (finished, refl, h, refl)
Waits-move n now init ok failed l other turn h = (failed, refl, tt, refl)
Waits-move n now init ok _ l other turn h = ground arith

-- Such a step keeps what holds of the thread, if that is no more than `Waits`.
waiting-keeps :
    (P : List Event → Thread → List ℕ → List ℕ → Type 0) (n now init : ℕ) (ok : Bool)
    (log : List Event) (th : Thread) (other : List ℕ)
    → th.locals.i % 2 ≢ init
    → Waits n th.pc th.locals
    → ((pc' : Pc)
        → Waits n pc' th.locals
        → P log (record { pc = pc'; locals = th.locals }) [] other)
    → let m = move n init now ok th.pc th.locals [] other in
      P (event_of init th.pc m.thread.pc ++ log) m.thread m.own m.other
waiting-keeps P n now init ok log th other turn h keeps =
    let (pc', e, waits, silent) = Waits-move n now init ok th.pc th.locals other turn h in
    subst (λ (m : Moved). P (event_of init th.pc m.thread.pc ++ log) m.thread m.own m.other) (sym e)
      (rw silent (keeps pc' waits))

sender-Before :
    (n now k init : ℕ) (ok : Bool) (pc : Pc) (l : Locals) (r : Thread) (log : List Event)
    → k % 2 ≡ init
    → Before n now log k (record { pc = pc; locals = l }) r
    → let m = move n init now ok pc l [] [] in
      Turn n now (event_of init pc m.thread.pc ++ log) k m.thread r m.own m.other
unfolding move
sender-Before n now k init ok top l r log own h = elim (Bool-cases (ltb l.i n)) [
  | inl more ↦
      let mine : is_sender init l.i ≡ true = ground arith in
      rw (more, mine) (before (ground (arith, more)))
  | inr over ↦ rw over (before (ground (arith, over)))
]
sender-Before n now k init ok timing l r log own h = elim (Bool-cases (leb now l.tsc)) [
  | inl early ↦ rw early (before h)
  | inr later ↦ rw later (before (ground (arith, later)))
]
sender-Before n now k init true (writing t) l r log own
      (i, j, le, _, (new, old, more), waits, rally) =
    let log' = subst (λ (p : ℕ). Rally (suc k) t true (sent p t ∷ log)) own (serve rally new) in
    flying (omega arith, j, omega arith, new, old, tt) waits log'
sender-Before n now k init false (writing t) l r log own (i, j, le, room, h, waits, rally) =
    before (i, j, le, room, tt, waits, rally)
sender-Before n now k init ok finished l r log own h = before h
sender-Before n now k init ok failed l r log own h = before h
sender-Before n now k init ok _ l r log own h = ground arith

pub sender-Turn :
    (n now k init : ℕ) (ok : Bool) (s r : Thread) (log : List Event) (ps pr : List ℕ)
    → k % 2 ≡ init
    → Turn n now log k s r ps pr
    → let m = move n init now ok s.pc s.locals ps pr in
      Turn n now (event_of init s.pc m.thread.pc ++ log) k m.thread r m.own m.other
sender-Turn n now k init ok s r log _ _ own (before h) =
    sender-Before n now k init ok s.pc s.locals r log own h
sender-Turn n now k init ok s r log _ _ own (flying {t} (i, j, more, new, old, waits) wr rally) =
    waiting-keeps (λ log' x a b. Turn n now log' k x r a b) n now init ok log s (t ∷ [])
      (omega arith) waits λ pc' h. flying (i, j, more, new, old, h) wr rally
sender-Turn n now k init ok s r log _ _ own
      (taken_out t (i, j, more, new, old, waits) holds rally) =
    waiting-keeps (λ log' x a b. Turn n now log' k x r a b) n now init ok log s [] (omega arith)
      waits λ pc' h. taken_out t (i, j, more, new, old, h) holds rally

receiver-flying :
    (n now k init t : ℕ) (ok : Bool) (s : Thread) (pc : Pc) (l : Locals) (log : List Event)
    → suc k % 2 ≡ init
    → Behind n now k t s (record { pc = pc; locals = l })
    → Waits n pc l
    → Rally (suc k) t true log
    → let m = move n init now ok pc l (t ∷ []) [] in
      Turn n now (event_of init pc m.thread.pc ++ log) k s m.thread m.other m.own
unfolding move
receiver-flying n now k init t ok s top l log own h waits rally =
    let more : ltb l.i n ≡ true = ground arith in
    let not_mine : is_sender init l.i ≡ false = ground arith in
    rw (more, not_mine) (flying h (omega arith) rally)
receiver-flying n now k init t true s reading l log own h waits rally =
    let log' = subst (λ (p : ℕ). Rally (suc k) t false (got p t ∷ log)) own (take_over rally) in
    taken_out t h refl log'
receiver-flying n now k init t false s reading l log own h waits rally = flying h tt rally
receiver-flying n now k init t ok s failed l log own h waits rally = flying h tt rally
receiver-flying n now k init t ok s _ l log own h waits rally = ground arith

-- The receiver's last step of an iteration makes it the sender of the next one.
receiver-taken :
    (n now k init t : ℕ) (ok : Bool) (s : Thread) (pc : Pc) (l : Locals) (log : List Event)
    → Behind n now k t s (record { pc = pc; locals = l })
    → Holds t pc
    → Rally (suc k) t false log
    → let m = move n init now ok pc l [] [] in
      let log' = event_of init pc m.thread.pc ++ log in
      Turn n now log' k s m.thread m.other m.own ⊎ Turn n now log' (suc k) m.thread s m.own m.other
unfolding move
receiver-taken n now k init t ok s (loaded v) l log h holds rally =
    elim (received-cases n now v l) [
      | inl (room, e) ↦
          let (i, j, more, new, old, waits) = h in
          let last = subst (λ (p : ℕ). Rally (suc k) p false log) (sym holds) rally in
          rw e (inr (before (omega arith, i, omega arith, omega arith, tt, waits, last)))
      | inr (full, e) ↦ rw e (inl (taken_out t h tt rally))
    ]
receiver-taken n now k init t ok s faulted l log h holds rally = inl (taken_out t h tt rally)
receiver-taken n now k init t ok s _ l log h holds rally = ground arith

pub receiver-Turn :
    (n now k init : ℕ) (ok : Bool) (s r : Thread) (log : List Event) (ps pr : List ℕ)
    → suc k % 2 ≡ init
    → Turn n now log k s r ps pr
    → let m = move n init now ok r.pc r.locals pr ps in
      let log' = event_of init r.pc m.thread.pc ++ log in
      Turn n now log' k s m.thread m.other m.own ⊎ Turn n now log' (suc k) m.thread s m.own m.other
receiver-Turn n now k init ok s r log _ _ own (before (i, j, le, room, sends, waits, rally)) = inl (
    waiting-keeps (λ log' x a b. Turn n now log' k s x b a) n now init ok log r [] (omega arith)
      waits λ pc' h. before (i, j, le, room, sends, h, rally))
receiver-Turn n now k init ok s r log _ _ own (flying {t} h waits rally) =
    inl (receiver-flying n now k init t ok s r.pc r.locals log own h waits rally)
receiver-Turn n now k init ok s r log _ _ own (taken_out t h holds rally) =
    receiver-taken n now k init t ok s r.pc r.locals log h holds rally
