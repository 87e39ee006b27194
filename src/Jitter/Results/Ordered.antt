-- ===== src/Jitter/Results/Ordered.antt =====
-- The rows of osjitter.c: no assertion fails, and the percentiles of a row are in order.
use Prim.Native.Nat.{zero, suc}
use osjitter.Prelude.{
  ℕ, ◌-◌, ◌*◌, ◌/◌, ◌^◌, ◌≤◌, ◌<◌, ◌≡◌, sym, ap, ◌∙◌, refl, List, [], ◌∷◌, Option, some, get_or,
  take, length, length-take, arith,
}
use mathlib.Core.Path.{subst}
use osjitter.Util.Sort.{IsAscending}
use osjitter.Util.Percentile.{rank, pick, percentile_u32}
use osjitter.Util.Percentile.Rank.{
  AreSmall, rank-lt, get_or_mono, percentile-nil, percentile-pick, pick_bracket, percentile_mono,
}
use osjitter.Util.Mad.{mad_u32}
use osjitter.Util.Mad.Spread.{mad_splits}
use osjitter.Util.Scale.{mul_u64_u32_shr}
use osjitter.Util.Scale.Error.{quotient-le, mul_u64_u32_shr_mono}
use osjitter.Jitter.Args.{Args}
use osjitter.Jitter.Measure.{Worker}
use osjitter.Jitter.Results.{
  Statistics, with_percentile, last_of, statistics, row_of, pp_row, map_statistics,
}

pub get_or-take : (n i : ℕ) (xs : List ℕ) → i < n → get_or (take n xs) i 0 ≡ get_or xs i 0
get_or-take zero i xs h = absurd (omega arith)
get_or-take (suc n) i [] h = refl
get_or-take (suc n) zero (x ∷ xs) h = refl
get_or-take (suc n) (suc i) (x ∷ xs) h = get_or-take n i xs (omega arith)

percentile-exists :
    (xs : List ℕ) (a b : ℕ)
    → IsAscending xs
    → a < b
    → length xs * a < 2 ^ 64
    → (v : ℕ) × (percentile_u32 xs a b ≡ some v)
percentile-exists [] a b asc lt fits = (0, percentile-nil a b)
percentile-exists (x ∷ xs) a b asc lt fits = (
  pick (x ∷ xs) (rank (length (x ∷ xs)) a b),
  percentile-pick (x ∷ xs) a b asc (omega arith) lt fits,
)

pub mad-exists :
    (xs : List ℕ)
    → IsAscending xs
    → AreSmall xs
    → length xs < 2 ^ 63
    → (m : ℕ) × (mad_u32 xs ≡ some m)
unfolding mad_u32
mad-exists [] asc small fits = (0, refl)
mad-exists (x ∷ xs) asc small fits =
    let (med, m, found, mad, low, high) = mad_splits (x ∷ xs) asc (omega arith) fits small in
    (m, mad)

percentile-le-last :
    (xs : List ℕ) (a b v : ℕ)
    → IsAscending xs
    → AreSmall xs
    → a < b
    → length xs * a < 2 ^ 64
    → percentile_u32 xs a b ≡ some v
    → v ≤ get_or xs (length xs - 1) 0
percentile-le-last [] a b v asc small lt fits e =
    let same : v ≡ 0 = cc (percentile-nil a b) in omega arith
percentile-le-last (x ∷ xs) a b v asc small lt fits e =
    let ys = x ∷ xs in
    let i = rank (length ys) a b in
    let same : pick ys i ≡ v = cc (percentile-pick ys a b asc (omega arith) lt fits) in
    let i-lt = rank-lt (length ys) a b (omega arith) lt fits in
    let bracket = pick_bracket ys i asc small i-lt in
    let end = get_or_mono ys i (length ys - 1) asc (omega arith) (omega arith) in omega arith

pub first-le-percentile :
    (xs : List ℕ) (a b v : ℕ)
    → IsAscending xs
    → AreSmall xs
    → a < b
    → length xs * a < 2 ^ 64
    → percentile_u32 xs a b ≡ some v
    → get_or xs 0 0 ≤ v
first-le-percentile [] a b v asc small lt fits e = omega arith
first-le-percentile (x ∷ xs) a b v asc small lt fits e =
    let ys = x ∷ xs in
    let i = rank (length ys) a b in
    let same : pick ys i ≡ v = cc (percentile-pick ys a b asc (omega arith) lt fits) in
    let i-lt = rank-lt (length ys) a b (omega arith) lt fits in
    let bracket = pick_bracket ys i asc small i-lt in
    let front = get_or_mono ys 0 (i - 1) asc (omega arith) (omega arith) in omega arith

last_of-take :
    (samples : ℕ) (ds : List ℕ)
    → samples ≤ length ds
    → get_or (take samples ds) (length (take samples ds) - 1) 0 ≡ last_of ds samples
last_of-take zero ds enough = refl
last_of-take (suc n) ds enough =
    let len : length (take (suc n) ds) - 1 ≡ n = omega (arith, length-take {0} (suc n) ds) in
    let same : last_of ds (suc n) ≡ get_or ds n 0 = ground arith in
    ap (λ i. get_or (take (suc n) ds) i 0) len ∙ get_or-take (suc n) n ds (omega arith) ∙ sym same

with_percentile-some :
    (xs : List ℕ) (a b v : ℕ) (next : ℕ → Option Statistics)
    → percentile_u32 xs a b ≡ some v
    → with_percentile xs a b next ≡ next v
with_percentile-some xs a b v next e = rw (e, with_percentile)

statistics-some :
    (ds : List ℕ) (samples mad v50 v20 v80 v90 v99 v999 : ℕ)
    → let xs = take samples ds in
      mad_u32 xs ≡ some mad
      → percentile_u32 xs 1 2 ≡ some v50
      → percentile_u32 xs 1 5 ≡ some v20
      → percentile_u32 xs 4 5 ≡ some v80
      → percentile_u32 xs 90 100 ≡ some v90
      → percentile_u32 xs 99 100 ≡ some v99
      → percentile_u32 xs 999 1000 ≡ some v999
      → statistics ds samples
        ≡ some (record {
          p20 = v20;
          median = v50;
          p80 = v80;
          p90 = v90;
          p99 = v99;
          p99_9 = v999;
          max = last_of ds samples;
          mad = mad;
        })
unfolding statistics
statistics-some ds samples mad v50 v20 v80 v90 v99 v999 e-mad e50 e20 e80 e90 e99 e999 =
    let xs = take samples ds in
    rw (e-mad, statistics)
      (with_percentile-some xs 1 2 v50 _ e50
        ∙ with_percentile-some xs 1 5 v20 _ e20
        ∙ with_percentile-some xs 4 5 v80 _ e80
        ∙ with_percentile-some xs 90 100 v90 _ e90
        ∙ with_percentile-some xs 99 100 v99 _ e99
        ∙ with_percentile-some xs 999 1000 v999 _ e999)

abbrev pub IsOrdered : Statistics → Type 0
IsOrdered s =
    (s.p20 ≤ s.median)
    × (s.median ≤ s.p80)
    × (s.p80 ≤ s.p90)
    × (s.p90 ≤ s.p99)
    × (s.p99 ≤ s.p99_9)
    × (s.p99_9 ≤ s.max)

pub statistics-IsOrdered :
    (ds : List ℕ) (samples : ℕ)
    → samples ≤ length ds
    → samples * 1000 < 2 ^ 64
    → IsAscending (take samples ds)
    → AreSmall (take samples ds)
    → (s : Statistics) × (statistics ds samples ≡ some s)
      × IsOrdered s
      × (s.max ≡ last_of ds samples)
      × (percentile_u32 (take samples ds) 1 5 ≡ some s.p20)
unfolding statistics
statistics-IsOrdered ds samples enough fits asc small =
    let xs = take samples ds in
    let len : length xs ≡ samples = omega (arith, length-take {0} samples ds) in
    let (mad, e-mad) = mad-exists xs asc small (omega arith) in
    let (v50, e50) = percentile-exists xs 1 2 asc (omega arith) (omega arith) in
    let (v20, e20) = percentile-exists xs 1 5 asc (omega arith) (omega arith) in
    let (v80, e80) = percentile-exists xs 4 5 asc (omega arith) (omega arith) in
    let (v90, e90) = percentile-exists xs 90 100 asc (omega arith) (omega arith) in
    let (v99, e99) = percentile-exists xs 99 100 asc (omega arith) (omega arith) in
    let (v999, e999) = percentile-exists xs 999 1000 asc (omega arith) (omega arith) in
    let mono = λ (a b c d v w : ℕ). percentile_mono xs a b c d v w asc small in
    let top = percentile-le-last xs 999 1000 v999 asc small (omega arith) (omega arith) e999 in
    let end : v999 ≤ last_of ds samples =
      subst (λ x. v999 ≤ x) (last_of-take samples ds enough) top in
    (
      record {
        p20 = v20;
        median = v50;
        p80 = v80;
        p90 = v90;
        p99 = v99;
        p99_9 = v999;
        max = last_of ds samples;
        mad = mad;
      },
      statistics-some ds samples mad v50 v20 v80 v90 v99 v999 e-mad e50 e20 e80 e90 e99 e999,
      (
        mono 1 5 1 2 v20 v50 (omega arith) (omega arith) (omega arith) (omega arith) (omega arith)
            e20 e50,
        mono 1 2 4 5 v50 v80 (omega arith) (omega arith) (omega arith) (omega arith) (omega arith)
            e50 e80,
        mono 4 5 90 100 v80 v90 (omega arith) (omega arith) (omega arith) (omega arith)
            (omega arith) e80 e90,
        mono 90 100 99 100 v90 v99 (omega arith) (omega arith) (omega arith) (omega arith)
            (omega arith) e90 e99,
        mono 99 100 999 1000 v99 v999 (omega arith) (omega arith) (omega arith) (omega arith)
            (omega arith) e99 e999,
        end,
      ),
      refl,
      e20,
    )

pub scaled-le :
    (mult shift v w top : ℕ)
    → v ≤ w
    → w ≤ top
    → top * mult / 2 ^ shift < 2 ^ 64
    → mul_u64_u32_shr v mult shift ≤ mul_u64_u32_shr w mult shift
scaled-le mult shift v w top le le' fits =
    let below = quotient-le w top mult shift le' in
    mul_u64_u32_shr_mono v w mult shift le (omega arith)

-- Scaling keeps the order, if the largest value is less than 2 ^ 64 nanoseconds.
pub map_statistics-IsOrdered :
    (mult shift : ℕ) (s : Statistics)
    → IsOrdered s
    → s.max * mult / 2 ^ shift < 2 ^ 64
    → IsOrdered (map_statistics (λ v. mul_u64_u32_shr v mult shift) s)
map_statistics-IsOrdered mult shift s (h1, h2, h3, h4, h5, h6) fits =
    let mono =
      λ (v w : ℕ) (le : v ≤ w) (top : w ≤ s.max). scaled-le mult shift v w s.max le top fits in
    (
      mono s.p20 s.median h1 (omega arith),
      mono s.median s.p80 h2 (omega arith),
      mono s.p80 s.p90 h3 (omega arith),
      mono s.p90 s.p99 h4 (omega arith),
      mono s.p99 s.p99_9 h5 h6,
      mono s.p99_9 s.max h6 (omega arith),
    )

-- The deltas of a worker are in ascending order and below 2 ^ 31, all of them in its array, their
-- number times 1000 is below 2 ^ 64, and the largest is less than 2 ^ 64 nanoseconds.
abbrev pub IsPrintable : Args → Worker → Type 0
IsPrintable args w =
    (w.samples ≤ length w.deltas)
    × (w.samples * 1000 < 2 ^ 64)
    × IsAscending (take w.samples w.deltas)
    × AreSmall (take w.samples w.deltas)
    × (last_of w.deltas w.samples * args.mult / 2 ^ args.shift < 2 ^ 64)

-- Then no assertion fails, and the percentiles of its row are in order.
pub pp_row-IsOrdered :
    (args : Args) (cpu : ℕ) (w : Worker)
    → IsPrintable args w
    → (s : Statistics) × (pp_row args cpu w ≡ some (row_of args cpu w s))
      × IsOrdered (row_of args cpu w s).ns
unfolding pp_row
pp_row-IsOrdered args cpu w (enough, fits, asc, small, last) =
    let (s, e, ordered, top, _) = statistics-IsOrdered w.deltas w.samples enough fits asc small in
    let fits_ns : s.max * args.mult / 2 ^ args.shift < 2 ^ 64 =
      subst (λ x. x * args.mult / 2 ^ args.shift < 2 ^ 64) (sym top) last in
    (s, rw (e, pp_row) refl, map_statistics-IsOrdered args.mult args.shift s ordered fits_ns)
