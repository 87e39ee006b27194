-- ===== src/Pingpong/Spin/Turns.antt =====
-- The turns of the two spinning threads of pingpong.c: who sends in an iteration, and what the cells
-- hold meanwhile.
use Prim.Native.Nat.{suc}
use mathlib.Core.Path.{subst}
use osjitter.Prelude.{
  ℕ, ◌%◌, ◌≤◌, ◌<◌, ◌≡◌, ◌≢◌, ◌⊎◌, inl, inr, refl, sym, Bool, true, false, List, ◌∷◌, ◌++◌, arith,
  ltb, leb, Bool-cases,
}
use osjitter.Pingpong.Worker.{Locals, is_sender}
use osjitter.Pingpong.Worker.Room.{received-cases}
use osjitter.Pingpong.Rally.{Event, sent, got, Rally, serve, take_over}
use osjitter.Pingpong.Spin.{
  Pc, top, sending, storing, receiving, loaded, finished, faulted, Thread, move, after_store,
  event_of,
}

-- the sender of an iteration, before its store
abbrev pub CanSend : ℕ → ℕ → Pc → Locals → Type 0
CanSend n now top l = Unit
CanSend n now sending l = l.i < n
CanSend n now (storing t) l = (l.tsc < t) × (t ≤ now) × (l.i < n)
CanSend n now finished l = n ≤ l.i
CanSend n now _ l = ⊥

-- a thread that waits for a store
abbrev pub Waits : ℕ → Pc → Locals → Type 0
Waits n top l = Unit
Waits n receiving l = l.i < n
Waits n finished l = n ≤ l.i
Waits n _ l = ⊥

-- the receiver behind the store of `cell`
abbrev pub CanLoad : ℕ → ℕ → Pc → Locals → Type 0
CanLoad n cell top l = Unit
CanLoad n cell receiving l = Unit
CanLoad n cell (loaded v) l = v ≡ cell
CanLoad n cell faulted l = Unit
CanLoad n cell _ l = ⊥

-- In iteration k `s` has not stored yet: nothing is new in the cells.
abbrev pub Before : ℕ → ℕ → ℕ → Thread → Thread → ℕ → ℕ → Type 0
Before n now k s r cell_s cell_r =
    (s.locals.i ≡ k)
    × (r.locals.i ≡ k)
    × (cell_r ≤ r.locals.tsc)
    × (r.locals.tsc ≤ s.locals.tsc)
    × (cell_s ≤ s.locals.tsc)
    × CanSend n now s.pc s.locals
    × Waits n r.pc r.locals

-- In iteration k `s` has stored, and is in iteration k + 1; `r` has not recorded the delta yet.
abbrev pub Behind : ℕ → ℕ → ℕ → Thread → Thread → ℕ → ℕ → Type 0
Behind n now k s r cell_s cell_r =
    (s.locals.i ≡ suc k)
    × (r.locals.i ≡ k)
    × (k < n)
    × (s.locals.tsc < cell_r)
    × (cell_r ≤ now)
    × (r.locals.tsc ≤ s.locals.tsc)
    × (cell_s ≤ s.locals.tsc)
    × Waits n s.pc s.locals
    × CanLoad n cell_r r.pc r.locals

-- whether the receiver has not loaded the value yet
abbrev pub is_flying : Pc → Bool
is_flying top = true
is_flying receiving = true
is_flying _ = false

-- `s` is the sender of iteration k, and `r` its receiver; the events are those of a rally.
abbrev pub Turn : ℕ → ℕ → List Event → ℕ → Thread → Thread → ℕ → ℕ → Type 0
Turn n now log k s r cell_s cell_r =
    (Before n now k s r cell_s cell_r × Rally k s.locals.tsc false log)
    ⊎ (Behind n now k s r cell_s cell_r × Rally (suc k) cell_r (is_flying r.pc) log)

-- A receiver that waits in an iteration below n has yet to load the value.
Waits-is_flying : (n : ℕ) (pc : Pc) (l : Locals) → l.i < n → Waits n pc l → is_flying pc ≡ true
Waits-is_flying n top l lt h = refl
Waits-is_flying n receiving l lt h = refl
Waits-is_flying n finished l lt h = absurd (omega arith)
Waits-is_flying n _ l lt h = ground arith

pub sender-Before :
    (n now k init : ℕ) (pc : Pc) (l : Locals) (r : Thread) (cell_s cell_r : ℕ) (log : List Event)
    → k % 2 ≡ init
    → Before n now k (record { pc = pc; locals = l }) r cell_s cell_r
    → Rally k l.tsc false log
    → let m = move n init now cell_s pc l in
      Turn n now
        (event_of init pc m.thread.pc ++ log)
        k
        m.thread
        r
        cell_s
        (after_store m.store cell_r)
unfolding move
sender-Before n now k init top l r cell_s cell_r log own h rally = elim (Bool-cases (ltb l.i n)) [
  | inl more ↦
      let mine : is_sender init l.i ≡ true = ground arith in
      rw (more, mine) (inl (ground (arith, more), rally))
  | inr over ↦ rw over (inl (ground (arith, over), rally))
]
sender-Before n now k init sending l r cell_s cell_r log own h rally =
    elim (Bool-cases (leb now l.tsc)) [
      | inl early ↦ rw early (inl (h, rally))
      | inr later ↦ rw later (inl (ground (arith, later), rally))
    ]
sender-Before n now k init (storing t) l r cell_s cell_r log own h rally =
    let (_, _, _, _, _, (new, _, _), waits) = h in
    let served = subst (λ (p : ℕ). Rally (suc k) t true (sent p t ∷ log)) own (serve rally new) in
    let flies = Waits-is_flying n r.pc r.locals (omega arith) waits in
    inr
      (ground arith, subst (λ (b : Bool). Rally (suc k) t b (sent init t ∷ log)) (sym flies) served)
sender-Before n now k init receiving l r cell_s cell_r log own h rally = ground arith
sender-Before n now k init (loaded v) l r cell_s cell_r log own h rally = ground arith
sender-Before n now k init faulted l r cell_s cell_r log own h rally = ground arith
sender-Before n now k init finished l r cell_s cell_r log own h rally = inl (h, rally)

pub sender-Behind :
    (n now k init : ℕ) (pc : Pc) (l : Locals) (r : Thread) (cell_s cell_r : ℕ) (log : List Event)
    → k % 2 ≡ init
    → Behind n now k (record { pc = pc; locals = l }) r cell_s cell_r
    → Rally (suc k) cell_r (is_flying r.pc) log
    → let m = move n init now cell_s pc l in
      Turn n now
        (event_of init pc m.thread.pc ++ log)
        k
        m.thread
        r
        cell_s
        (after_store m.store cell_r)
unfolding move
sender-Behind n now k init top l r cell_s cell_r log own h rally = elim (Bool-cases (ltb l.i n)) [
  | inl more ↦
      let other : is_sender init l.i ≡ false = ground arith in
      rw (more, other) (inr (ground (arith, more), rally))
  | inr over ↦ rw over (inr (ground (arith, over), rally))
]
sender-Behind n now k init receiving l r cell_s cell_r log own h rally =
    let nothing : ltb l.tsc cell_s ≡ false = ground arith in rw nothing (inr (h, rally))
sender-Behind n now k init finished l r cell_s cell_r log own h rally = inr (h, rally)
sender-Behind n now k init _ l r cell_s cell_r log own h rally = ground arith

pub receiver-Before :
    (n now k init : ℕ) (s : Thread) (pc : Pc) (l : Locals) (cell_s cell_r : ℕ) (log : List Event)
    → k % 2 ≢ init
    → Before n now k s (record { pc = pc; locals = l }) cell_s cell_r
    → Rally k s.locals.tsc false log
    → let m = move n init now cell_r pc l in
      Turn n now
        (event_of init pc m.thread.pc ++ log)
        k
        s
        m.thread
        (after_store m.store cell_s)
        cell_r
unfolding move
receiver-Before n now k init s top l cell_s cell_r log own h rally = elim (Bool-cases (ltb l.i n)) [
  | inl more ↦
      let other : is_sender init l.i ≡ false = ground arith in
      rw (more, other) (inl (ground (arith, more), rally))
  | inr over ↦ rw over (inl (ground (arith, over), rally))
]
receiver-Before n now k init s receiving l cell_s cell_r log own h rally =
    let nothing : ltb l.tsc cell_r ≡ false = ground arith in rw nothing (inl (h, rally))
receiver-Before n now k init s finished l cell_s cell_r log own h rally = inl (h, rally)
receiver-Before n now k init s _ l cell_s cell_r log own h rally = ground arith

-- The receiver's last step of an iteration makes it the sender of the next one.
pub receiver-Behind :
    (n now k init : ℕ) (s : Thread) (pc : Pc) (l : Locals) (cell_s cell_r : ℕ) (log : List Event)
    → suc k % 2 ≡ init
    → Behind n now k s (record { pc = pc; locals = l }) cell_s cell_r
    → Rally (suc k) cell_r (is_flying pc) log
    → let m = move n init now cell_r pc l in
      let log' = event_of init pc m.thread.pc ++ log in
      Turn n now log' k s m.thread (after_store m.store cell_s) cell_r
      ⊎ Turn n now log' (suc k) m.thread s cell_r (after_store m.store cell_s)
unfolding move
receiver-Behind n now k init s top l cell_s cell_r log own h rally =
    let more : ltb l.i n ≡ true = ground arith in
    let other : is_sender init l.i ≡ false = ground arith in
    rw (more, other) (inl (inr (ground arith, rally)))
receiver-Behind n now k init s receiving l cell_s cell_r log own h rally =
    let new : ltb l.tsc cell_r ≡ true = ground arith in
    let log' =
      subst (λ (p : ℕ). Rally (suc k) cell_r false (got p cell_r ∷ log)) own (take_over rally) in
    rw new (inl (inr (ground arith, log')))
receiver-Behind n now k init s (loaded v) l cell_s cell_r log own h rally =
    elim (received-cases n now v l) [
      | inl (room, e) ↦
          let (_, _, _, _, _, _, _, _, same) = h in
          let last = subst (λ (p : ℕ). Rally (suc k) p false log) (sym same) rally in
          rw e (inr (inl (ground arith, last)))
      | inr (full, e) ↦ rw e (inl (inr (ground arith, rally)))
    ]
receiver-Behind n now k init s faulted l cell_s cell_r log own h rally = inl (inr (h, rally))
receiver-Behind n now k init s _ l cell_s cell_r log own h rally = ground arith
