-- ===== src/Pingpong/Worker/Finalize.antt =====
-- What a thread of pingpong.c leaves in its `Worker`.
use osjitter.Prelude.{
  ℕ, ◌/◌, ◌≤◌, ◌≡◌, refl, Bool, true, false, List, ◌++◌, length, take, drop, count, arith, ltb,
  take-append_exact, length-take, length-append,
}
use osjitter.Util.Sort.{cmp_u32, qsort, IsAscending, qsort-IsAscending, length-qsort, count-qsort}
use osjitter.Pingpong.Worker.{Worker, done, spin_main_finalize}

-- what a finished thread reports of j deltas
pub record IsFinal (ds : List ℕ) (j : ℕ) (y : Worker) : Type 0 where
  pub size : y.ds_size ≡ j
  pub raw : y.raw_ds ≡ take j ds
  pub enough : j ≤ length y.ds
  pub sorted : IsAscending (take j y.ds)
  pub same_values : (p : ℕ → Bool) → count p (take j y.ds) ≡ count p y.raw_ds

-- With at most n / 2 deltas, all of them in the array, and memory, the thread keeps the deltas in the
-- order of their recording and in ascending order.
pub spin_main_finalize-IsFinal :
    (x : Worker) (ds : List ℕ) (j : ℕ)
    → j ≤ x.n / 2
    → j ≤ length ds
    → (y : Worker) × (spin_main_finalize true x ds j ≡ done y) × IsFinal ds j y
unfolding spin_main_finalize
spin_main_finalize-IsFinal x ds j fits enough =
    let ok : ltb (x.n / 2) j ≡ false = ground arith in
    let front = take j ds in
    let split : take j (qsort cmp_u32 front ++ drop j ds) ≡ qsort cmp_u32 front =
      take-append_exact j (qsort cmp_u32 front) (drop j ds)
        (omega (arith, length-qsort cmp_u32 front, length-take {0} j ds)) in
    (
      record x { raw_ds = front; ds = qsort cmp_u32 front ++ drop j ds; ds_size = j },
      rw ok refl,
      record {
        size = refl;
        raw = refl;
        enough = omega (
          arith,
          length-append (qsort cmp_u32 front) (drop j ds),
          length-qsort cmp_u32 front,
          length-take {0} j ds,
        );
        sorted = rw split (qsort-IsAscending front);
        same_values = λ p. rw split (count-qsort cmp_u32 p front);
      },
    )
