-- ===== src/Pingpong/Control/Laws.antt =====
-- How `spin_pingpong` of pingpong.c ends, for every answer of the calls that it makes.
use osjitter.Prelude.{ℕ, ◌≡◌, ◌⊎◌, refl, Bool, true, false, [], ◌∷◌, none, some}
use osjitter.Pingpong.Args.{Args}
use osjitter.Pingpong.Worker.{Worker}
use osjitter.Pingpong.Control.{
  Creation, Joining, launched_of, can_launch, launch_loop, Played, show_output,
}

-- All calls for the thread succeed.
abbrev pub Succeeds : Args → ℕ → Creation → Type 0
Succeeds args i c = (can_launch args i c ≡ true) × (c.destroys ≡ true)

abbrev pub Fails : Args → ℕ → Creation → Type 0
Fails args i c = (can_launch args i c ≡ false) ⊎ (c.destroys ≡ false)

pub launch-both :
    (args : Args) (cs : ℕ → Creation)
    → Succeeds args 0 (cs 0)
    → Succeeds args 1 (cs 1)
    → launch_loop args cs 2 0
      ≡ record { threads = launched_of args 0 ∷ launched_of args 1 ∷ []; complete = true }
unfolding launch_loop
launch-both args cs (l0, d0) (l1, d1) = rw (l0, d0, l1, d1) refl

-- Both threads can be joined and return their workers.
abbrev pub Returns : Joining → Joining → Worker → Worker → Type 0
Returns j0 j1 w0 w1 =
    (j0.joins ≡ true) × (j1.joins ≡ true) × (j0.result ≡ some w0) × (j1.result ≡ some w1)

abbrev pub HasError : Joining → Joining → Type 0
HasError j0 j1 = (j0.joins ≡ false) ⊎ (j1.joins ≡ false) ⊎ (j0.result ≡ none) ⊎ (j1.result ≡ none)

-- how the part behind the store to `start_work` ends
abbrev pub IsFinished : Args → Joining → Joining → (ℕ → Bool) → Played → Type 0
IsFinished args j0 j1 memory p =
    ((w0 w1 : Worker) × Returns j0 j1 w0 w1
      × (p.status ≡ 0)
      × (p.output ≡ some (show_output args memory w0 w1)))
    ⊎ (HasError j0 j1 × (p.status ≡ 1) × (p.output ≡ none))

-- What `spin_pingpong` has done: created both threads and let them start, or reported an error.
abbrev pub IsPlayed : Args → (ℕ → Creation) → Joining → Joining → (ℕ → Bool) → Played → Type 0
IsPlayed args cs j0 j1 memory p =
    (Succeeds args 0 (cs 0)
      × Succeeds args 1 (cs 1)
      × IsFinished args j0 j1 memory p
      × (p.start_work ≡ true)
      × (p.threads ≡ launched_of args 0 ∷ launched_of args 1 ∷ []))
    ⊎ ((Fails args 0 (cs 0) ⊎ Fails args 1 (cs 1))
        × (p.start_work ≡ false)
        × (p.status ≡ 1)
        × (p.output ≡ none))
