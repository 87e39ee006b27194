-- ===== src/Pingpong/Control/Whole.antt =====
-- pingpong.c from the creation of its spinning threads to the table that it prints.
use mathlib.Core.Path.{subst}
use osjitter.Prelude.{
  ℕ, ◌*◌, ◌/◌, ◌%◌, ◌^◌, ◌<◌, ◌≡◌, refl, sym, ap, ◌∙◌, Bool, true, false, List, [], ◌∷◌, some, take,
  arith,
}
use osjitter.Prelude.Int.{pos}
use osjitter.Util.Percentile.Rank.{AreSmall}
use osjitter.Util.Sort.{IsAscending}
use osjitter.Jitter.Results.{last_of}
use osjitter.Pingpong.Args.{Args}
use osjitter.Pingpong.Worker.{Worker, done, spin_main_finalize}
use osjitter.Pingpong.Worker.Finalize.{IsFinal}
use osjitter.Pingpong.Rally.{Event}
use osjitter.Pingpong.Spin.{System, finished, Reach}
use osjitter.Pingpong.Spin.Room.{Reach-IsFinal}
use osjitter.Pingpong.Results.{Row, reported, pp_results}
use osjitter.Pingpong.Results.Ordered.{IsRow, IsPrintable, pp_results-AreRows}
use osjitter.Pingpong.Control.{
  Creation, Joining, worker_of, table, finish, workers, join_both, spin_pingpong,
}
use osjitter.Pingpong.Control.Laws.{Succeeds, Returns, launch-both}

-- The deltas of a worker are below 2 ^ 31, and the largest is less than 2 ^ 64 nanoseconds.
abbrev pub IsShort : Args → Worker → Type 0
IsShort args y =
    AreSmall (take y.ds_size y.ds) × (last_of y.ds y.ds_size * args.mult / 2 ^ args.shift < 2 ^ 64)

done-injective : {x y : Worker} → done x ≡ done y → x ≡ y
done-injective h = cc

IsFinal-IsPrintable :
    (args : Args) (ds : List ℕ) (j : ℕ) (y : Worker)
    → IsFinal ds j y
    → j < 2 ^ 32
    → IsShort args y
    → IsPrintable args y
IsFinal-IsPrintable args ds j y final small (short, last) = (
  omega (arith, final.size, final.enough),
  omega (arith, final.size),
  subst (λ n. IsAscending (take n y.ds)) (sym final.size) final.sorted,
  short,
  last,
)

play-both :
    (args : Args) (cs : ℕ → Creation) (j0 j1 : Joining) (memory : ℕ → Bool) (y0 y1 : Worker)
    → Succeeds args 0 (cs 0) × Succeeds args 1 (cs 1)
    → Returns j0 j1 y0 y1
    → args.json ≡ false
    → let p = spin_pingpong args cs j0 j1 memory in
      (p.status ≡ 0) × (p.output ≡ some (table (pp_results args memory (workers y0 y1))))
unfolding spin_pingpong finish join_both
play-both args cs j0 j1 memory y0 y1 (ok0, ok1) (yes0, yes1, r0, r1) no_json =
    rw (launch-both args cs ok0 ok1, yes0, yes1, r0, r1, no_json) (refl, refl)

-- Let the control thread create two spinning threads and join them, with an even number n > 0 of
-- iterations below 2 ^ 32. If they have come to their end in a run of theirs, and return what
-- `spin_main_finalize` has made of their deltas, which are below 2 ^ 31 ticks and 2 ^ 64 nanoseconds,
-- then without --json the program returns 0 and prints a row of n / 2 deltas for each thread, with the
-- minimum, the percentiles and the maximum in order.
pub whole_run :
    (args : Args) (cs : ℕ → Creation) (j0 j1 : Joining) (memory : ℕ → Bool) (s : System)
    (log : List Event) (y0 y1 : Worker)
    → (args.n % 2 ≡ 0) × (0 < args.n) × (args.n < 2 ^ 32) × (args.json ≡ false)
    → Succeeds args 0 (cs 0) × Succeeds args 1 (cs 1)
    → Reach args.n s log
    → (s.thread0.pc ≡ finished) × (s.thread1.pc ≡ finished)
    → (spin_main_finalize true (worker_of args 0) s.thread0.locals.ds s.thread0.locals.j ≡ done y0)
      × (spin_main_finalize true (worker_of args 1) s.thread1.locals.ds s.thread1.locals.j
          ≡ done y1)
    → IsShort args y0 × IsShort args y1
    → Returns j0 j1 y0 y1
    → (memory 0 ≡ true) × (memory 1 ≡ true)
    → let p = spin_pingpong args cs j0 j1 memory in
      (r0 r1 : Row) × (p.status ≡ 0)
      × (p.output ≡ some (table (reported (r0 ∷ r1 ∷ []) (pos 0))))
      × IsRow 0 (args.n / 2) r0
      × IsRow 1 (args.n / 2) r1
whole_run args cs j0 j1 memory s log y0 y1 (even, some_left, small, no_json) ok run (f0, f1)
      (e0, e1) (short0, short1) returns mem =
    let ((z0, d0, final0), (z1, d1, final1)) =
      Reach-IsFinal args.n s log (worker_of args 0) (worker_of args 1) even refl refl run f0 f1 in
    let same0 : z0 ≡ y0 = done-injective (sym d0 ∙ e0) in
    let same1 : z1 ≡ y1 = done-injective (sym d1 ∙ e1) in
    let final0' = subst (IsFinal s.thread0.locals.ds (args.n / 2)) same0 final0 in
    let final1' = subst (IsFinal s.thread1.locals.ds (args.n / 2)) same1 final1 in
    let print0 =
      IsFinal-IsPrintable args s.thread0.locals.ds (args.n / 2) y0 final0' (omega arith) short0 in
    let print1 =
      IsFinal-IsPrintable args s.thread1.locals.ds (args.n / 2) y1 final1' (omega arith) short1 in
    let (r0, r1, prints, row0, row1) =
      pp_results-AreRows args memory (workers y0 y1) mem (print0, print1)
        (omega (arith, final0'.size), omega (arith, final1'.size)) in
    let (ends, shows) = play-both args cs j0 j1 memory y0 y1 ok returns no_json in
    (
      r0,
      r1,
      ends,
      shows ∙ ap (λ r. some (table r)) prints,
      subst (λ n. IsRow 0 n r0) final0'.size row0,
      subst (λ n. IsRow 1 n r1) final1'.size row1,
    )
