-- ===== src/Pingpong/Condvar/Races.antt =====
-- The threads of pingpong.c that use condition variables have no data race on an item.
use Prim.Native.Nat.{suc}
use osjitter.Prelude.{ℕ, ◌≡◌, ap, inl, inr, refl, Bool, true, false, List, arith}
use osjitter.Pingpong.Worker.{Locals}
use osjitter.Pingpong.Rally.{Event}
use osjitter.Pingpong.Condvar.{
  Pc, top, storing, signalling, locking, testing, waiting, relocking, loading, finished, failed,
  Thread, Item, System, Reach,
}
use osjitter.Pingpong.Condvar.Phases.{
  CanSend, Waits, Finds, Holds, Turn, free, held, stored, given, got,
}
use osjitter.Pingpong.Condvar.Refines.{Reach-Alternates}

-- whether the next step of a thread accesses an item's `tsc`
abbrev pub accesses : Pc → Bool
accesses (storing t) = true
accesses testing = true
accesses loading = true
accesses _ = false

-- whether it is a store into the other thread's item
abbrev pub is_storing : Pc → Bool
is_storing (storing t) = true
is_storing _ = false

Waits-idle : (n k : ℕ) (pc : Pc) (l : Locals) → Waits n k false pc l → accesses pc ≡ false
Waits-idle n k signalling l h = refl
Waits-idle n k top l h = refl
Waits-idle n k locking l h = refl
Waits-idle n k waiting l h = refl
Waits-idle n k relocking l h = refl
Waits-idle n k finished l h = refl
Waits-idle n k failed l h = refl
Waits-idle n k _ l h = ground arith

CanSend-no_store :
    (n now k : ℕ) (pc : Pc) (l : Locals) → CanSend n now k pc l → is_storing pc ≡ false
CanSend-no_store n now k (storing t) l h = absurd h
CanSend-no_store n now k _ l h = ground arith

Waits-no_store :
    (n k : ℕ) (b : Bool) (pc : Pc) (l : Locals) → Waits n k b pc l → is_storing pc ≡ false
Waits-no_store n k b (storing t) l h = absurd h
Waits-no_store n k b _ l h = ground arith

Finds-no_store :
    (n k : ℕ) (b : Bool) (pc : Pc) (l : Locals) → Finds n k b pc l → is_storing pc ≡ false
Finds-no_store n k b (storing t) l h = absurd h
Finds-no_store n k b _ l h = ground arith

Holds-no_store :
    (k t : ℕ) (b : Bool) (pc : Pc) (l : Locals) → Holds k t b pc l → is_storing pc ≡ false
Holds-no_store k t b (storing u) l h = absurd h
Holds-no_store k t b _ l h = ground arith

-- While one thread stores into the other's item, the other does not access it.
abbrev pub IsExclusive : Thread → Thread → Type 0
IsExclusive a b =
    (is_storing a.pc ≡ true → accesses b.pc ≡ false)
    × (is_storing b.pc ≡ true → accesses a.pc ≡ false)

neither : (a b : Thread) → is_storing a.pc ≡ false → is_storing b.pc ≡ false → IsExclusive a b
neither a b ha hb = (λ e. cc, λ e. cc)

Turn-IsExclusive :
    (n now k : ℕ) (s r : Thread) (log : List Event) (ss sr : Item)
    → Turn n now log k s r ss sr
    → IsExclusive s r
Turn-IsExclusive n now k s r log ss sr (free room times old shut i waits rally) =
    neither s r (CanSend-no_store n now k s.pc s.locals i)
      (Waits-no_store n k sr.locked r.pc r.locals waits)
Turn-IsExclusive n now k s r log ss sr (held t at_t i times old locks waits rally) =
    let no_store = Waits-no_store n k false r.pc r.locals waits in
    (λ e. Waits-idle n k r.pc r.locals waits, λ e. cc)
Turn-IsExclusive n now k s r log ss sr (stored place i times locks waits rally) =
    let no_store : is_storing s.pc ≡ false = elim place [
      | inl at_release ↦ ap is_storing at_release
      | inr stuck ↦ ap is_storing stuck
    ] in
    neither s r no_store (Waits-no_store n k false r.pc r.locals waits)
Turn-IsExclusive n now k s r log ss sr (given i times waits finds heard rally) =
    neither s r (Waits-no_store n (suc k) ss.locked s.pc s.locals waits)
      (Finds-no_store n k sr.locked r.pc r.locals finds)
Turn-IsExclusive n now k s r log ss sr (got i times waits holds rally) =
    neither s r (Waits-no_store n (suc k) ss.locked s.pc s.locals waits)
      (Holds-no_store k sr.tsc sr.locked r.pc r.locals holds)

-- In no state of any run, whichever calls fail, does a thread store into the other's item while the other is before a load
-- of its `tsc`, which is not atomic.
pub Reach-IsExclusive :
    (n : ℕ) (s : System) (log : List Event) → Reach n s log → IsExclusive s.thread0 s.thread1
Reach-IsExclusive n s log r =
    let (k, turns) = Reach-Alternates n s log r in
    elim turns [
      | inl (_, t) ↦ Turn-IsExclusive n s.now k s.thread0 s.thread1 log s.item0 s.item1 t
      | inr (_, t) ↦
          let (a, b) = Turn-IsExclusive n s.now k s.thread1 s.thread0 log s.item1 s.item0 t in
          (b, a)
    ]
