-- ===== src/Pingpong/Null.antt =====
-- `spin_null_main` of pingpong.c: the time between two readings of the counter. The readings are the
-- input, in pairs.
pub mod Deltas
use Prim.Native.Nat.{zero, suc}
use osjitter.Prelude.{
  ℕ, ◌+◌, ◌-◌, ◌/◌, ◌≡◌, refl, Bool, true, false, List, [], ◌∷◌, Option, none, some, set, replicate,
  if◌then◌else◌,
}
use osjitter.Prelude.Words.{u32, sub64}
use osjitter.Pingpong.Worker.{Worker, Finalized, spin_main_finalize}

abbrev pub delta_of : ℕ × ℕ → ℕ
delta_of (new_tsc, now) = u32 (sub64 now new_tsc)

-- `m` rounds of the loop, from `j` on; `none` means that the readings end before the loop does
unfoldable pub null_loop : ℕ → ℕ → List (ℕ × ℕ) → List ℕ → Option (List ℕ)
null_loop zero j readings ds = some ds
null_loop (suc m) j [] ds = none
null_loop (suc m) j (p ∷ readings) ds = null_loop m (j + 1) readings (set ds j (delta_of p))

pub data Ended : Type 0 where
  -- `calloc` fails, and the thread returns NULL
  no_memory : Ended
  -- more readings are needed
  running : Ended
  ended : Finalized → Ended

unfoldable pub spin_null_main : Bool → Bool → Worker → List (ℕ × ℕ) → Ended
unfolding null_loop
spin_null_main false malloc x readings = no_memory
spin_null_main true malloc x readings =
    elim (null_loop (x.n / 2) 0 readings (replicate (x.n / 2) 0)) [
      | none ↦ running
      | some ds ↦ ended (spin_main_finalize malloc x ds (x.n / 2))
    ]
