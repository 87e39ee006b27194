-- ===== src/Jitter/Params/Laws.antt =====
-- What `set_params` of osjitter.c sets.
use Prim.Native.Nat.{zero, suc}
use osjitter.Prelude.{
  ℕ, ◌+◌, ◌*◌, ◌^◌, ◌≤◌, ◌<◌, ◌≡◌, ◌⊎◌, ◌∙◌, sym, ap, inl, inr, refl, Bool, true, false, ◌&&◌, ◌||◌,
  Option, none, some, arith, ltb, leb, ◌==◌, ==→≡, if◌then◌else◌, Bool-cases, Option-cases, of_some,
}
use mathlib.Core.Path.{subst}
use native.Mathlib.Nat.{mod-eq_of_lt, mul-le-mul_left}
use osjitter.Prelude.Words.{u64}
use osjitter.Util.Khz.{SysFile, missing}
use osjitter.Jitter.CpuSet
use osjitter.Jitter.CpuSet.{CpuSet, cpu_setsize, no_cpu_below}
use osjitter.Jitter.Probe.{is_cpu_online}
use osjitter.Jitter.Params.{Double, System, online_loop, select_cpus, ticks_of_s}

-- The measuring time in ticks is exact where it is at most 2 ^ 53, which a double holds.
pub ticks_of_s_exact :
    (F : Double) (khz s : ℕ) → 0 < s → khz * 1000 * s ≤ 2 ^ 53 → ticks_of_s F khz s ≡ khz * 1000 * s
unfolding ticks_of_s
ticks_of_s_exact F khz s pos fits =
    let s-le : 1 ≤ s = pos in
    let le = mul-le-mul_left (khz * 1000) s-le in
    let ticks : F.mul (F.mul (F.of_ℕ khz) (F.of_ℕ 1000)) (F.of_ℕ s) ≡ F.of_ℕ (khz * 1000 * s) =
      ap (λ x. F.mul x (F.of_ℕ s)) (F.mul-of_ℕ khz 1000 (omega arith))
      ∙ F.mul-of_ℕ (khz * 1000) s fits in
    let exact = F.trunc-of_ℕ (khz * 1000 * s) fits in
    ap (λ x. u64 (F.trunc x)) ticks ∙ ap u64 exact ∙ mod-eq_of_lt (omega arith)

abbrev pub is_on : Option Bool → Bool
is_on none = false
is_on (some b) = b

-- a round's change of the set, below the set's size
cpu_set_if :
    (b : Bool) (k : ℕ) (s : CpuSet) (j : ℕ)
    → j < cpu_setsize
    → (if b then CpuSet.cpu_set k s else s) j ≡ ((b && j == k) || s j)
cpu_set_if false k s j lt = refl
cpu_set_if true k s j lt = ground arith

-- the bits at `j`, in a round for `k`
next_bits :
    (k n : ℕ) (on : ℕ → Bool) (j : ℕ) (old : Bool)
    → ((leb (k + 1) j && ltb j (k + 1 + n) && on j) || ((on k && j == k) || old))
      ≡ ((leb k j && ltb j (k + suc n) && on j) || old)
next_bits k n on j old = elim (Bool-cases (j == k)) [
  | inl same ↦
      let k-j : j ≡ k = ==→≡ j k same in
      subst
        (λ i.
          ((leb (k + 1) i && ltb i (k + 1 + n) && on i) || ((on k && i == k) || old))
          ≡ ((leb k i && ltb i (k + suc n) && on i) || old))
        (sym k-j) (ground arith)
  | inr other ↦ ground arith
]

online_loop_lem :
    (n k : ℕ) (files : ℕ → SysFile) (s s' : CpuSet) (j : ℕ)
    → online_loop n k files s ≡ some s'
    → j < cpu_setsize
    → s' j ≡ ((leb k j && ltb j (k + n) && is_on (is_cpu_online (files j))) || s j)
unfolding online_loop
online_loop_lem zero k files s s' j h lt =
    let same = ap (λ t. t j) (of_some h) in ground (arith, same)
online_loop_lem (suc n) k files s s' j h lt = elim (Option-cases (is_cpu_online (files k))) [
  | inl bad ↦ cc (rw (bad, online_loop) at h)
  | inr (b, e) ↦
      let s1 = (if b then CpuSet.cpu_set k s else s) in
      let h' : online_loop n (k + 1) files s1 ≡ some s' = (rw (e, online_loop) at h) in
      let ih = online_loop_lem n (k + 1) files s1 s' j h' lt in
      let on : ℕ → Bool = λ i. is_on (is_cpu_online (files i)) in
      let bit = cpu_set_if b k s j lt in
      let was : on k ≡ b = ap is_on e in
      ih
      ∙ ap (λ x. (leb (k + 1) j && ltb j (k + 1 + n) && on j) || x)
          (bit ∙ ap (λ x. (x && j == k) || s j) (sym was))
      ∙ next_bits k n on j (s j)
]

no_cpu_below_lem : (n : ℕ) (s : CpuSet) → no_cpu_below n s ≡ true → (j : ℕ) → j < n → s j ≡ false
unfolding no_cpu_below
no_cpu_below_lem zero s h j lt = ground arith
no_cpu_below_lem (suc n) s h j lt = elim (Bool-cases (s n)) [
  | inl on ↦ cc (rw (on) at h)
  | inr off ↦ elim (Bool-cases (j == n)) [
    | inl same ↦ let j-n : j ≡ n = ==→≡ j n same in subst (λ i. s i ≡ false) (sym j-n) off
    | inr other ↦ no_cpu_below_lem n s (rw (off) at h) j (ground (arith, other))
  ]
]

-- If no CPU is given, then `set_params` selects the CPUs that are online, of the numbers from 0 to
-- the number of CPUs, that number included; otherwise it leaves the set as it is.
pub select_cpus-online :
    (sys : System) (s s' : CpuSet)
    → select_cpus sys s ≡ some s'
    → (j : ℕ) → j < cpu_setsize
    → ((no_cpu_below cpu_setsize s ≡ true)
        × (s' j ≡ (leb j sys.cpus && is_on (is_cpu_online (sys.online j)))))
      ⊎ ((no_cpu_below cpu_setsize s ≡ false) × (s' j ≡ s j))
unfolding select_cpus online_loop no_cpu_below
select_cpus-online sys s s' h j lt = elim (Bool-cases (no_cpu_below cpu_setsize s)) [
  | inl empty ↦
      let all = online_loop_lem (sys.cpus + 1) 0 sys.online s s' j (rw (empty) at h) lt in
      let old = no_cpu_below_lem cpu_setsize s empty j lt in inl (empty, (ground (arith, all, old)))
  | inr given ↦ inr (given, ap (λ t. t j) (sym (of_some (rw (given) at h))))
]

-- If no CPU is given and there is no file for the number of CPUs itself, which is below 1024, then
-- `set_params` selects that number too, although the CPUs are numbered below it.
select_cpus-extra :
    (sys : System) (s s' : CpuSet)
    → no_cpu_below cpu_setsize s ≡ true
    → sys.online sys.cpus ≡ missing
    → sys.cpus < cpu_setsize
    → select_cpus sys s ≡ some s'
    → s' sys.cpus ≡ true
unfolding is_cpu_online
select_cpus-extra sys s s' empty no_file lt h = elim (select_cpus-online sys s s' h sys.cpus lt) [
  | inl (e, bit) ↦
      let on : is_on (is_cpu_online (sys.online sys.cpus)) ≡ true =
        ap (λ f. is_on (is_cpu_online f)) no_file in
      ground (arith, bit, on)
  | inr (given, same) ↦ cc
]
