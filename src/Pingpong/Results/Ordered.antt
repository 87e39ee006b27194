-- ===== src/Pingpong/Results/Ordered.antt =====
-- What pingpong.c prints of the deltas that its threads report.
use Prim.Native.Nat.{zero, suc}
use mathlib.Core.Path.{subst}
use osjitter.Prelude.{
  ℕ, ◌+◌, ◌-◌, ◌*◌, ◌/◌, ◌^◌, ◌≤◌, ◌<◌, ◌≡◌, refl, sym, ap, ◌∙◌, Bool, true, false, List, [], ◌∷◌,
  some, map, get_elem?, get_or, take, length, length-take, drop, ◌==◌, if◌then◌else◌, arith,
}
use osjitter.Prelude.Int.{pos}
use osjitter.Prelude.Options.{◌>>=◌}
use osjitter.Util.Sort.{IsAscending}
use osjitter.Util.Percentile.Rank.{AreSmall}
use osjitter.Util.Mad.{mad_u32}
use osjitter.Jitter.Results.{last_of}
use osjitter.Jitter.Results.Ordered.{
  IsOrdered, statistics-IsOrdered, map_statistics-IsOrdered, first-le-percentile, scaled-le,
  mad-exists, get_or-take,
}
use osjitter.Pingpong.Args.{Args}
use osjitter.Pingpong.Worker.{Worker}
use osjitter.Pingpong.Results.{
  Row, Report, reported, print_row, in_ns, row_of, pp_worker, pp_loop, pp_results, json_loop,
  json_array, print_json,
}

drop-get :
    (xs : List ℕ) (j k : ℕ)
    → j < length xs
    → k ≡ suc j
    → (v : ℕ) × (get_elem? xs j ≡ some v) × (drop j xs ≡ v ∷ drop k xs)
drop-get [] j k lt e = absurd (omega arith)
drop-get (x ∷ xs) zero k lt e = (x, refl, rw e refl)
drop-get (x ∷ xs) (suc j) k lt e =
    let (v, at, rest) = drop-get xs j (suc j) (omega arith) refl in
    (v, at, rest ∙ ap (λ m. v ∷ drop m (x ∷ xs)) (sym e))

drop-all : (xs : List ℕ) (j : ℕ) → length xs ≡ j → drop j xs ≡ []
drop-all [] zero e = refl
drop-all [] (suc j) e = refl
drop-all (x ∷ xs) zero e = absurd (omega arith)
drop-all (x ∷ xs) (suc j) e = drop-all xs j (omega arith)

json_loop-map :
    (args : Args) (raw : List ℕ) (n j : ℕ)
    → length raw ≡ j + n
    → json_loop args raw n j ≡ some (map (in_ns args) (drop j raw))
unfolding json_loop
json_loop-map args raw zero j len = let over = drop-all raw j (omega arith) in rw over refl
json_loop-map args raw (suc n) j len =
    let (v, at, split) = drop-get raw j (j + 1) (omega arith) (omega arith) in
    let rest = json_loop-map args raw n (j + 1) (omega arith) in rw (at, rest, split) refl

json_array-map :
    (args : Args) (w : Worker)
    → length w.raw_ds ≡ w.ds_size
    → json_array args w ≡ some (map (in_ns args) w.raw_ds)
unfolding json_array json_loop
json_array-map args w len = by_raw w.raw_ds w.ds_size len
  where
    by_raw :
        (raw : List ℕ) (size : ℕ)
        → length raw ≡ size
        → (if size == 0
            then some []
            else get_elem? raw 0 >>= λ v.
                json_loop args raw (size - 1) 1 >>= λ rest. some (in_ns args v ∷ rest))
          ≡ some (map (in_ns args) raw)
    by_raw [] size e = rw (sym e) refl
    by_raw (x ∷ xs) zero e = absurd (omega arith)
    by_raw (x ∷ xs) (suc n) e =
        let some_left : (suc n == 0) ≡ false = ground arith in
        let less : suc n - 1 ≡ n = omega arith in
        rw (some_left, less, json_loop-map args (x ∷ xs) n 1 (omega arith)) refl

-- The JSON text has the deltas of both threads in nanoseconds, in the order of their recording.
pub print_json-map :
    (args : Args) (ws : ℕ → Worker)
    → length (ws 0).raw_ds ≡ (ws 0).ds_size
    → length (ws 1).raw_ds ≡ (ws 1).ds_size
    → print_json args ws
      ≡ some (map (in_ns args) (ws 0).raw_ds ∷ map (in_ns args) (ws 1).raw_ds ∷ [])
unfolding print_json
print_json-map args ws len0 len1 =
    rw (json_array-map args (ws 0) len0, json_array-map args (ws 1) len1) refl

-- The row of a thread: its number of deltas, with the smallest and the percentiles in order.
abbrev pub IsRow : ℕ → ℕ → Row → Type 0
IsRow i size r = (r.thread ≡ i) × (r.deltas ≡ size) × (r.min_ns ≤ r.ns.p20) × IsOrdered r.ns

-- What the printed row of a worker needs: as many deltas as it says, in ascending order and below
-- 2 ^ 31, with a number and a largest value that the arithmetic allows.
abbrev pub IsPrintable : Args → Worker → Type 0
IsPrintable args w =
    (w.ds_size ≤ length w.ds)
    × (w.ds_size * 1000 < 2 ^ 64)
    × IsAscending (take w.ds_size w.ds)
    × AreSmall (take w.ds_size w.ds)
    × (last_of w.ds w.ds_size * args.mult / 2 ^ args.shift < 2 ^ 64)

-- No assertion fails for such a worker, and its row is in order.
pp_worker-IsRow :
    (args : Args) (i : ℕ) (w : Worker) (rest : Report)
    → IsPrintable args w
    → 0 < w.ds_size
    → (r : Row) × (pp_worker args i w rest ≡ print_row r rest) × IsRow i w.ds_size r
unfolding pp_worker
pp_worker-IsRow args i w rest (enough, fits, asc, small, last) some_left =
    let (s, e, ordered, top, e20) = statistics-IsOrdered w.ds w.ds_size enough fits asc small in
    let len : length (take w.ds_size w.ds) ≡ w.ds_size =
      omega (arith, length-take {0} w.ds_size w.ds) in
    let (mad, e-mad) = mad-exists (take w.ds_size w.ds) asc small (omega arith) in
    let fits_ns : s.max * args.mult / 2 ^ args.shift < 2 ^ 64 =
      subst (λ x. x * args.mult / 2 ^ args.shift < 2 ^ 64) (sym top) last in
    let first =
      first-le-percentile (take w.ds_size w.ds) 1 5 s.p20 asc small (omega arith) (omega arith)
        e20 in
    let least : get_or w.ds 0 0 ≤ s.p20 =
      subst (λ x. x ≤ s.p20) (get_or-take w.ds_size 0 w.ds some_left) first in
    let at_least_one : (w.ds_size == 0) ≡ false = ground arith in
    (
      row_of args i w s,
      rw (e-mad, pp_worker, at_least_one, e) refl,
      (
        refl,
        refl,
        scaled-le args.mult args.shift (get_or w.ds 0 0) s.p20 s.max least (omega (arith, ordered))
            fits_ns,
        map_statistics-IsOrdered args.mult args.shift s ordered fits_ns,
      ),
    )

pp_worker-empty :
    (args : Args) (i : ℕ) (w : Worker) (rest : Report)
    → w.ds_size ≡ 0
    → pp_worker args i w rest ≡ rest
unfolding pp_worker mad_u32
pp_worker-empty args i w rest nothing = rw nothing refl

-- If each of the two workers has reported at least one delta, and all of them in ascending order, below
-- 2 ^ 31 and few and small enough for the arithmetic, and `realloc` succeeds, then `pp_results` prints
-- a row for each in which the minimum, the percentiles and the maximum are in order.
pub pp_results-AreRows :
    (args : Args) (memory : ℕ → Bool) (ws : ℕ → Worker)
    → (memory 0 ≡ true) × (memory 1 ≡ true)
    → IsPrintable args (ws 0) × IsPrintable args (ws 1)
    → (0 < (ws 0).ds_size) × (0 < (ws 1).ds_size)
    → (r0 r1 : Row) × (pp_results args memory ws ≡ reported (r0 ∷ r1 ∷ []) (pos 0))
      × IsRow 0 (ws 0).ds_size r0
      × IsRow 1 (ws 1).ds_size r1
unfolding pp_results pp_loop
pp_results-AreRows args memory ws (m0, m1) (h0, h1) (some0, some1) =
    let (r1, e1, row1) = pp_worker-IsRow args 1 (ws 1) (reported [] (pos 0)) h1 some1 in
    let (r0, e0, row0) = pp_worker-IsRow args 0 (ws 0) (reported (r1 ∷ []) (pos 0)) h0 some0 in
    (r0, r1, rw (m0, m1, e1) e0, row0, row1)
