-- ===== src/Jitter/Results/Rows.antt =====
-- The table of osjitter.c: a row for each selected CPU, in order.
use Prim.Native.Nat.{zero, suc}
use osjitter.Prelude.{
  ℕ, ◌+◌, ◌≡◌, refl, ap, inl, inr, Bool, true, List, [], ◌∷◌, some, if◌then◌else◌, Bool-cases,
}
use osjitter.Prelude.Int.{pos}
use osjitter.Jitter.Args.{Args}
use osjitter.Jitter.CpuSet.{CpuSet}
use osjitter.Jitter.Measure.{Worker}
use osjitter.Jitter.Results.{Row, row_of, pp_loop, pp_results}
use osjitter.Jitter.Results.Ordered.{IsOrdered, IsPrintable, pp_row-IsOrdered}

-- the CPUs of a set among `n` numbers from `cpu` on
abbrev pub selected : CpuSet → ℕ → ℕ → List ℕ
selected set zero cpu = []
selected set (suc n) cpu =
    if set cpu then cpu ∷ selected set n (cpu + 1) else selected set n (cpu + 1)

-- the CPUs of rows
abbrev pub cpus_of : List Row → List ℕ
cpus_of [] = []
cpus_of (r ∷ rows) = r.cpu ∷ cpus_of rows

-- the percentiles of each row are in order
abbrev pub AreOrdered : List Row → Type 0
AreOrdered [] = Unit
AreOrdered (r ∷ rows) = IsOrdered r.ns × AreOrdered rows

-- The workers of the selected CPUs can be printed, and there is memory for their deltas.
abbrev pub CanPrint : Args → (ℕ → Bool) → (ℕ → Worker) → Type 0
CanPrint args memory ws =
    (cpu : ℕ) → args.cpu_set cpu ≡ true → (memory cpu ≡ true) × IsPrintable args (ws cpu)

pp_loop-AreOrdered :
    (args : Args) (memory : ℕ → Bool) (n cpu : ℕ) (ws : ℕ → Worker)
    → CanPrint args memory ws
    → (rows : List Row) × (pp_loop args memory n cpu ws ≡ some (rows, pos 0))
      × (cpus_of rows ≡ selected args.cpu_set n cpu)
      × AreOrdered rows
unfolding pp_loop
pp_loop-AreOrdered args memory zero cpu ws can = ([], refl, refl, tt)
pp_loop-AreOrdered args memory (suc n) cpu ws can =
    let (rows, prints, cpus, ordered) = pp_loop-AreOrdered args memory n (cpu + 1) ws can in
    elim (Bool-cases (args.cpu_set cpu)) [
      | inl set ↦
          let (room, fit) = can cpu set in
          let (s, row, in_order) = pp_row-IsOrdered args cpu (ws cpu) fit in
          (
            row_of args cpu (ws cpu) s ∷ rows,
            rw (set, room, row, prints) refl,
            rw set (ap (λ xs. cpu ∷ xs) cpus),
            (in_order, ordered),
          )
      | inr unset ↦ (rows, rw unset prints, rw unset cpus, ordered)
    ]

-- If there is memory for each selected CPU, and its worker's deltas are in ascending order and below
-- 2 ^ 31, all of them in its array, their number times 1000 is below 2 ^ 64, and the largest is less
-- than 2 ^ 64 nanoseconds, then `pp_results` returns 0, no assertion fails, and it prints one row for
-- each selected CPU, in order, with the percentiles in order: p20, median, p80, p90, p99, p99.9,
-- maximum.
pub pp_results-AreOrdered :
    (args : Args) (memory : ℕ → Bool) (ws : ℕ → Worker)
    → CanPrint args memory ws
    → (rows : List Row) × (pp_results args memory ws ≡ some (rows, pos 0))
      × (cpus_of rows ≡ selected args.cpu_set args.cpus 0)
      × AreOrdered rows
unfolding pp_results
pp_results-AreOrdered args memory ws can = pp_loop-AreOrdered args memory args.cpus 0 ws can
