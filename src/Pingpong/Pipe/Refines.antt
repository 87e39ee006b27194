-- ===== src/Pingpong/Pipe/Refines.antt =====
-- The threads of pingpong.c that use pipes refine the rally.
use Prim.Native.Nat.{suc}
use osjitter.Prelude.{
  ℕ, ◌+◌, ◌%◌, ◌≤◌, ◌≡◌, ◌⊎◌, inl, inr, refl, Bool, true, false, List, [], ◌∷◌, ◌++◌, arith,
  if◌then◌else◌,
}
use osjitter.Pingpong.Worker.{Locals}
use osjitter.Pingpong.Rally.{Event, Rally, silent}
use osjitter.Pingpong.Pipe.{
  Pc, top, timing, writing, finished, failed, Thread, System, move0, move1, moved0, moved1,
  event_of, first, second, tick, Reach, started, stepped,
}
use osjitter.Pingpong.Pipe.Phases.{
  CanSend, Turn, before, flying, taken_out, sender-Turn, receiver-Turn,
}

-- Thread 0 sends in the even iterations, thread 1 in the odd ones.
abbrev pub Alternates : ℕ → System → List Event → Type 0
Alternates n s log =
    (k : ℕ) × (((k % 2 ≡ 0) × Turn n s.now log k s.thread0 s.thread1 s.pipe0 s.pipe1)
      ⊎ ((k % 2 ≡ 1) × Turn n s.now log k s.thread1 s.thread0 s.pipe1 s.pipe0))

move0-Alternates :
    (n : ℕ) (ok : Bool) (s : System) (log : List Event)
    → Alternates n s log
    → Alternates n (move0 n ok s) (event_of 0 s.thread0.pc (moved0 n ok s).thread.pc ++ log)
move0-Alternates n ok s log (k, inl (even, t)) =
    (k, inl (even, sender-Turn n s.now k 0 ok s.thread0 s.thread1 log s.pipe0 s.pipe1 even t))
move0-Alternates n ok s log (k, inr (odd, t)) =
    elim (receiver-Turn n s.now k 0 ok s.thread1 s.thread0 log s.pipe1 s.pipe0 (omega arith) t) [
      | inl same ↦ (k, inr (odd, same))
      | inr later ↦ (suc k, inl (omega arith, later))
    ]

move1-Alternates :
    (n : ℕ) (ok : Bool) (s : System) (log : List Event)
    → Alternates n s log
    → Alternates n (move1 n ok s) (event_of 1 s.thread1.pc (moved1 n ok s).thread.pc ++ log)
move1-Alternates n ok s log (k, inr (odd, t)) =
    (k, inr (odd, sender-Turn n s.now k 1 ok s.thread1 s.thread0 log s.pipe1 s.pipe0 odd t))
move1-Alternates n ok s log (k, inl (even, t)) =
    elim (receiver-Turn n s.now k 1 ok s.thread0 s.thread1 log s.pipe0 s.pipe1 (omega arith) t) [
      | inl same ↦ (k, inl (even, same))
      | inr later ↦ (suc k, inr (omega arith, later))
    ]

CanSend-later : (n now d : ℕ) (pc : Pc) (l : Locals) → CanSend n now pc l → CanSend n (now + d) pc l
CanSend-later n now d (writing t) l h = omega arith
CanSend-later n now d top l h = h
CanSend-later n now d timing l h = h
CanSend-later n now d finished l h = h
CanSend-later n now d failed l h = h
CanSend-later n now d _ l h = ground arith

Turn-later :
    (n now d k : ℕ) (s r : Thread) (log : List Event) (ps pr : List ℕ)
    → Turn n now log k s r ps pr
    → Turn n (now + d) log k s r ps pr
Turn-later n now d k s r log _ _ (before (i, j, le, room, sends, waits, rally)) =
    before (i, j, le, room, CanSend-later n now d s.pc s.locals sends, waits, rally)
Turn-later n now d k s r log _ _ (flying {t} (i, j, more, new, old, waits) wr rally) =
    flying (i, j, more, new, omega arith, waits) wr rally
Turn-later n now d k s r log _ _ (taken_out t (i, j, more, new, old, waits) holds rally) =
    taken_out t (i, j, more, new, omega arith, waits) holds rally

pub Reach-Alternates : (n : ℕ) (s : System) (log : List Event) → Reach n s log → Alternates n s log
Reach-Alternates n _ _ (started now) =
    (0, inl (refl, before (refl, refl, omega arith, omega arith, tt, tt, silent)))
Reach-Alternates n _ _ (stepped {s} {log} r (first ok)) =
    move0-Alternates n ok s log (Reach-Alternates n s log r)
Reach-Alternates n _ _ (stepped {s} {log} r (second ok)) =
    move1-Alternates n ok s log (Reach-Alternates n s log r)
Reach-Alternates n _ _ (stepped {s} {log} r (tick d)) =
    let (k, turns) = Reach-Alternates n s log r in
    elim turns [
      | inl (even, t) ↦
          (k, inl (even, Turn-later n s.now d k s.thread0 s.thread1 log s.pipe0 s.pipe1 t))
      | inr (odd, t) ↦
          (k, inr (odd, Turn-later n s.now d k s.thread1 s.thread0 log s.pipe1 s.pipe0 t))
    ]

-- The rally that a run has played: what is under way is what the pipes hold.
abbrev pub Plays : ℕ → List ℕ → List Event → Type 0
Plays n pipes log =
    (k last : ℕ) × (flying : Bool) × (k ≤ n)
    × Rally k last flying log
    × (pipes ≡ (if flying then last ∷ [] else []))

Turn-Plays :
    (n now k : ℕ) (s r : Thread) (log : List Event) (ps pr : List ℕ)
    → Turn n now log k s r ps pr
    → Plays n (ps ++ pr) log × Plays n (pr ++ ps) log
Turn-Plays n now k s r log _ _ (before (i, j, le, room, sends, waits, rally)) =
    ((k, s.locals.tsc, false, room, rally, refl), (k, s.locals.tsc, false, room, rally, refl))
Turn-Plays n now k s r log _ _ (flying {t} (i, j, more, _, _, _) wr rally) =
    ((suc k, t, true, omega arith, rally, refl), (suc k, t, true, omega arith, rally, refl))
Turn-Plays n now k s r log _ _ (taken_out t (i, j, more, _, _, _) holds rally) =
    ((suc k, t, false, omega arith, rally, refl), (suc k, t, false, omega arith, rally, refl))

-- In every run, whichever calls fail, the events are those of a rally of at most n notifications, and
-- the pipes hold the notification that is under way, if there is one, and nothing else.
pub Reach-Plays :
    (n : ℕ) (s : System) (log : List Event) → Reach n s log → Plays n (s.pipe0 ++ s.pipe1) log
Reach-Plays n s log r =
    let (k, turns) = Reach-Alternates n s log r in
    elim turns [
      | inl (_, t) ↦ (Turn-Plays n s.now k s.thread0 s.thread1 log s.pipe0 s.pipe1 t).0
      | inr (_, t) ↦ (Turn-Plays n s.now k s.thread1 s.thread0 log s.pipe1 s.pipe0 t).1
    ]
