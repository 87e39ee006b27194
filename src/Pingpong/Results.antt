-- ===== src/Pingpong/Results.antt =====
-- `pp_results` and `print_json` of pingpong.c: what they print, as records and lists.
pub mod Ordered
use Prim.Native.Nat.{zero, suc}
use osjitter.Prelude.{
  ℕ, ◌+◌, ◌-◌, ◌≡◌, refl, Bool, List, [], ◌∷◌, Option, none, some, get_elem?, get_or, take, ◌==◌,
  if◌then◌else◌,
}
use osjitter.Prelude.Int.{ℤ, pos, negsuc}
use osjitter.Prelude.Options.{◌>>=◌}
use osjitter.Util.Mad.{mad_u32}
use osjitter.Util.Scale.{mul_u64_u32_shr}
use osjitter.Jitter.Results.{Statistics, statistics, map_statistics}
use osjitter.Pingpong.Args.{Args}
use osjitter.Pingpong.Worker.{Worker}

pub record Row : Type 0 where
  pub thread : ℕ
  pub tsc_khz : ℕ
  pub deltas : ℕ
  pub min_ns : ℕ
  -- the other statistics in nanoseconds
  pub ns : Statistics

-- The rows printed, and the return value.
pub data Report : Type 0 where
  assertion_fails : Report
  reported : List Row → ℤ → Report

abbrev pub print_row : Row → Report → Report
print_row r assertion_fails = assertion_fails
print_row r (reported rows ret) = reported (r ∷ rows) ret

module _ (args : Args) where
  abbrev pub in_ns : ℕ → ℕ
  in_ns t = mul_u64_u32_shr t args.mult args.shift

  abbrev pub row_of : ℕ → Worker → Statistics → Row
  row_of i w s = record {
    thread = i;
    tsc_khz = args.tsc_khz;
    deltas = w.ds_size;
    min_ns = in_ns (get_or w.ds 0 0);
    ns = map_statistics in_ns s;
  }

  -- a round of the loop behind `realloc`, and the rest
  unfoldable pub pp_worker : ℕ → Worker → Report → Report
  pp_worker i w rest = elim (mad_u32 (take w.ds_size w.ds)) [
    | none ↦ assertion_fails
    | some mad ↦ if w.ds_size == 0 then rest else elim (statistics w.ds w.ds_size) [
      | none ↦ assertion_fails
      | some s ↦ print_row (row_of i w s) rest
    ]
  ]

  -- `n` rounds from `i` on; `memory i` says that `realloc` does not return a null pointer.
  unfoldable pub pp_loop : (ℕ → Bool) → ℕ → ℕ → (ℕ → Worker) → Report
  unfolding pp_worker
  pp_loop memory zero i ws = reported [] (pos 0)
  pp_loop memory (suc n) i ws =
      let rest = pp_loop memory n (i + 1) ws in
      if memory i then pp_worker i (ws i) rest else reported [] (negsuc 0)

  unfoldable pub pp_results : (ℕ → Bool) → (ℕ → Worker) → Report
  unfolding pp_loop
  pp_results memory ws = pp_loop memory 2 0 ws

  -- `n` rounds of the inner loop from `j` on; `none` is a read behind the end of the array.
  unfoldable pub json_loop : List ℕ → ℕ → ℕ → Option (List ℕ)
  json_loop raw zero j = some []
  json_loop raw (suc n) j = do
    v ← get_elem? raw j
    rest ← json_loop raw n (j + 1)
    some (in_ns v ∷ rest)

  unfoldable pub json_array : Worker → Option (List ℕ)
  unfolding json_loop
  json_array w = if w.ds_size == 0 then some [] else do
    v ← get_elem? w.raw_ds 0
    rest ← json_loop w.raw_ds (w.ds_size - 1) 1
    some (in_ns v ∷ rest)

  -- the outer list of the JSON text
  unfoldable pub print_json : (ℕ → Worker) → Option (List (List ℕ))
  print_json ws = do a ← json_array (ws 0); b ← json_array (ws 1); some (a ∷ b ∷ [])
