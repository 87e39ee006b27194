-- ===== src/Jitter/Probe/Laws.antt =====
-- `check_cpuinfo` and the search for the thread's number in osjitter.c.
use Prim.Native.Nat.{zero, suc}
use osjitter.Prelude.{
  ℕ, ◌+◌, ◌*◌, ◌≤◌, ◌<◌, ◌≡◌, ◌↔◌, ◌⊎◌, ◌∙◌, sym, ap, inl, inr, refl, Bool, true, false, List, [],
  ◌∷◌, arith, ◌==◌, Bool-cases,
}
use osjitter.Prelude.Text.{codes, str_eq}
use osjitter.Prelude.Int.{pos}
use osjitter.Jitter.Probe.{
  lines, seen, check_cpuinfo, Memory, tid_loop, get_tid_off, pthread_to_tid,
}

-- A line of the pipe is the text.
abbrev pub HasLine : List ℕ → List (List ℕ) → Type 0
HasLine s [] = ⊥
HasLine s (l ∷ ls) = (str_eq l s ≡ true) ⊎ HasLine s ls

seen-true : (s : List ℕ) (ls : List (List ℕ)) → seen s true ls ≡ true
unfolding seen
seen-true s [] = refl
seen-true s (l ∷ ls) = ground (arith, seen-true s ls)

pub seen_iff : (s : List ℕ) (ls : List (List ℕ)) → (seen s false ls ≡ true) ↔ HasLine s ls
unfolding seen
seen_iff s [] = (λ h. cc, λ h. absurd h)
seen_iff s (l ∷ ls) = elim (Bool-cases (str_eq l s)) [
  | inl same ↦ (λ h. inl same, λ h. rw same (seen-true s ls))
  | inr other ↦ (
    λ h. inr ((seen_iff s ls).0 (rw other at h)),
    λ h. rw other ((seen_iff s ls).1 (ground arith)),
  )
]

-- `check_cpuinfo` returns 0 exactly if the pipe was read to its end and closed, and has a line for
-- each of the two features.
pub check_cpuinfo_iff :
    (ls : List (List ℕ)) (at_eof closes : Bool)
    → (check_cpuinfo (lines ls at_eof closes) ≡ pos 0) ↔ (
        (at_eof ≡ true)
        × (closes ≡ true)
        × HasLine (codes "constant_tsc\n") ls
        × HasLine (codes "nonstop_tsc\n") ls)
unfolding check_cpuinfo
check_cpuinfo_iff ls at_eof closes =
    let c = seen_iff (codes "constant_tsc\n") ls in
    let n = seen_iff (codes "nonstop_tsc\n") ls in
    (
      λ h. (ground arith, ground arith, c.0 (ground arith), n.0 (ground arith)),
      λ h. rw (h.0, h.1, c.1 h.2, n.1 h.3),
    )

module _ (m : Memory) (pid : ℕ) where
  -- If a word of the range is the number, the loop finds the first one.
  tid_loop_finds :
      (n p k : ℕ)
      → k < n
      → m (p + 4 * k) ≡ pid
      → (m (tid_loop n p m pid) ≡ pid) × (p ≤ tid_loop n p m pid) × (tid_loop n p m pid ≤ p + 4 * k)
  unfolding tid_loop
  tid_loop_finds zero p k lt e = absurd (omega arith)
  tid_loop_finds (suc n) p zero lt e =
      let same : p + 4 * 0 ≡ p = omega arith in
      let here : (m p == pid) ≡ true = ground (arith, ap m same) in
      rw here (omega (arith, ap m same), omega arith, omega arith)
  tid_loop_finds (suc n) p (suc k) lt e = elim (Bool-cases (m p == pid)) [
    | inl here ↦ rw here (ground arith, omega arith, omega arith)
    | inr other ↦
        let same : p + 4 * suc k ≡ p + 4 + 4 * k = omega arith in
        let found = tid_loop_finds n (p + 4) k (omega arith) (ap m (sym same) ∙ e) in
        rw other (found.0, omega arith, omega arith)
  ]

  -- If the thread's number stands at an offset of the range, the number is read at the offset that
  -- the search returns, which lies in the range and is not larger.
  pub pthread_to_tid-get_tid_off :
      (k : ℕ)
      → k < 224
      → m (128 + 4 * k) ≡ pid
      → (pthread_to_tid m (get_tid_off m pid) ≡ pid)
        × (128 ≤ get_tid_off m pid)
        × (get_tid_off m pid ≤ 128 + 4 * k)
  unfolding pthread_to_tid get_tid_off
  pthread_to_tid-get_tid_off k lt e = tid_loop_finds 224 128 k lt e
