-- ===== src/Pingpong/Rally.antt =====
-- What the two threads of pingpong.c promise by every method: a rally of notifications, as a
-- specification on the events of a run. Threads that spin, or use a pipe, a condition variable,
-- futexes or semaphores, refine it.
use Prim.Native.Nat.{suc}
use mathlib.Core.Path.{subst}
use osjitter.Prelude.{
  ℕ, ◌%◌, ◌<◌, ◌≡◌, refl, ap, sym, Bool, true, false, List, [], ◌∷◌, ◌++◌, length, arith,
  if◌then◌else◌,
}

-- A thread has sent a time to the other, or received it.
pub data Event : Type 0 where
  sent : (who time : ℕ) → Event
  got : (who time : ℕ) → Event

-- The logs of a rally, with the latest event first: the number of notifications, the time of the last
-- one, and whether it is under way.
pub data Rally : ℕ → ℕ → Bool → List Event → Type 0 where
  silent : Rally 0 1 false []
  -- the k-th notification is sent by thread k % 2, and is newer than the one before
  serve :
      {k last t : ℕ} {log : List Event}
      → Rally k last false log
      → last < t
      → Rally (suc k) t true (sent (k % 2) t ∷ log)
  -- the other thread receives it
  take_over :
      {k t : ℕ} {log : List Event}
      → Rally (suc k) t true log
      → Rally (suc k) t false (got (suc k % 2) t ∷ log)

abbrev pub sent_times : List Event → List ℕ
sent_times [] = []
sent_times (sent who t ∷ log) = t ∷ sent_times log
sent_times (got who t ∷ log) = sent_times log

abbrev pub got_times : List Event → List ℕ
got_times [] = []
got_times (sent who t ∷ log) = got_times log
got_times (got who t ∷ log) = t ∷ got_times log

-- In a rally each notification arrives once, in order, before the next one is sent.
pub Rally-delivers :
    (k last : ℕ) (flying : Bool) (log : List Event)
    → Rally k last flying log
    → (length (sent_times log) ≡ k)
      × (sent_times log ≡ (if flying then last ∷ got_times log else got_times log))
Rally-delivers _ _ _ _ silent = (refl, refl)
Rally-delivers _ _ _ _ (serve {k} {last} {t} {log} r lt) =
    let (count, same) = Rally-delivers k last false log r in (omega arith, ap (◌∷◌ t) same)
Rally-delivers _ _ _ _ (take_over {k} {t} {log} r) = Rally-delivers (suc k) t true log r

-- A step without an event leaves the rally as it is.
pub Rally-silent :
    {k t t' : ℕ} {flying : Bool} {es log : List Event}
    → es ≡ []
    → t' ≡ t
    → Rally k t flying log
    → Rally k t' flying (es ++ log)
Rally-silent {k} {t} {t'} {flying} {es} {log} nothing same r =
    let at_t = subst (λ (x : ℕ). Rally k x flying log) (sym same) r in
    subst (λ (xs : List Event). Rally k t' flying (xs ++ log)) (sym nothing) at_t
