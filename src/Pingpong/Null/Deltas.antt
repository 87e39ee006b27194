-- ===== src/Pingpong/Null/Deltas.antt =====
-- What `spin_null_main` of pingpong.c reports.
use Prim.Native.Nat.{zero, suc}
use osjitter.Prelude.{
  ℕ, ◌+◌, ◌/◌, ◌≡◌, sym, ap, ◌∙◌, true, List, [], ◌∷◌, ◌++◌, map, some, set, take, take-set,
  take-all, length, length-set, length-replicate, length-map, replicate, arith,
}
use mathlib.Core.List.{append-nil, append_assoc}
use osjitter.Pingpong.Worker.{Worker, done}
use osjitter.Pingpong.Worker.Finalize.{IsFinal, spin_main_finalize-IsFinal}
use osjitter.Pingpong.Null.{delta_of, null_loop, ended, spin_null_main}

null_loop-map :
    (m j : ℕ) (ps : List (ℕ × ℕ)) (ds : List ℕ)
    → length ps ≡ m
    → length ds ≡ j + m
    → null_loop m j ps ds ≡ some (take j ds ++ map delta_of ps)
unfolding null_loop
null_loop-map zero j [] ds h len =
    ap some (sym (append-nil (take j ds) ∙ take-all j ds (omega arith)))
null_loop-map zero j (p ∷ ps) ds h len = absurd (omega arith)
null_loop-map (suc m) j [] ds h len = absurd (omega arith)
null_loop-map (suc m) j (p ∷ ps) ds h len =
    let step : j + 1 ≡ suc j = omega arith in
    let ih =
      null_loop-map m (j + 1) ps (set ds j (delta_of p)) (omega arith)
        (length-set ds j (delta_of p) ∙ omega arith) in
    let one_more : take (j + 1) (set ds j (delta_of p)) ≡ take j ds ++ delta_of p ∷ [] =
      ap (λ i. take i (set ds j (delta_of p))) step ∙ take-set ds j (delta_of p) (omega arith) in
    ih
    ∙ ap (λ front. some (front ++ map delta_of ps)) one_more
    ∙ ap some (append_assoc (take j ds) (delta_of p ∷ []) (map delta_of ps))

-- With memory and a pair of readings for each of the n / 2 rounds the thread ends and reports the
-- n / 2 differences, modulo 2 ^ 32, in their order and sorted.
pub spin_null_main-IsFinal :
    (x : Worker) (readings : List (ℕ × ℕ))
    → length readings ≡ x.n / 2
    → (y : Worker) × (spin_null_main true true x readings ≡ ended (done y))
      × IsFinal (map delta_of readings) (x.n / 2) y
unfolding spin_null_main
spin_null_main-IsFinal x readings enough =
    let m = x.n / 2 in
    let ds = map delta_of readings in
    let (y, ends, final) =
      spin_main_finalize-IsFinal x ds m (omega arith)
        (omega (arith, length-map readings delta_of)) in
    let loop =
      null_loop-map m 0 readings (replicate m 0) enough
        (omega (arith, length-replicate {0} {A = ℕ} m 0)) in
    (y, rw (loop, ends, spin_null_main), final)
