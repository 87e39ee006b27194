-- ===== src/Jitter/Params/Calibrated.antt =====
-- The frequency and the multiplier that `set_params` of osjitter.c leaves.
use mathlib.Core.Path.{subst}
use osjitter.Prelude.{
  ℕ, ◌+◌, ◌*◌, ◌/◌, ◌^◌, ◌≤◌, ◌<◌, ◌≡◌, ◌∙◌, sym, ap, inl, inr, some, arith, ◌==◌, Bool-cases,
  Option-cases, of_some,
}
use osjitter.Util.Scale.{clocks_calc_mult_shift}
use osjitter.Util.Scale.Error.{calibration}
use osjitter.Util.Khz.{Run, out_of_bounds, returned, get_tsc_khz}
use osjitter.Util.Khz.Sources.{IsAnswer, get_tsc_khz-IsAnswer}
use osjitter.Jitter.CpuSet.{CpuSet}
use osjitter.Jitter.Args.{Args}
use osjitter.Jitter.Probe.{get_tid_off}
use osjitter.Jitter.Params.{
  Double, System, select_cpus, accepted, select_khz, ticks_of_ns, ticks_of_s, set_params,
}
use osjitter.Jitter.Params.Laws.{ticks_of_s_exact}

accepted-pos : (r : Run) (khz : ℕ) → IsAnswer r → accepted r ≡ some khz → 0 < khz
accepted-pos out_of_bounds khz fault h = elim fault [ ]
accepted-pos (returned r found) khz (inl (ok, known)) h =
    subst (λ x. 0 < x) (of_some (rw (ok, accepted) at h)) known
accepted-pos (returned r found) khz (inr failed) h = cc (rw (failed, accepted) at h)

-- A frequency that `set_params` goes on with is not 0.
select_khz-pos : (sys : System) (given khz : ℕ) → select_khz sys given ≡ some khz → 0 < khz
unfolding select_khz
select_khz-pos sys given khz h = elim (Bool-cases (given == 0)) [
  | inl none_given ↦
      let r = get_tsc_khz sys.khz_file sys.journal sys.dmesg in
      let answer = get_tsc_khz-IsAnswer sys.khz_file sys.journal sys.dmesg in
      accepted-pos r khz answer (rw (none_given, select_khz) at h)
  | inr other ↦ let same = of_some (rw (other, select_khz) at h) in ground (arith, other, same)
]

-- what a successful run computes, step by step
abbrev Built : Double → System → Args → Args → Type 0
Built F sys a a' =
    (set : CpuSet) × (khz : ℕ) × (mult : ℕ) × (shift : ℕ) × (select_cpus sys a.cpu_set ≡ some set)
    × (select_khz sys a.tsc_khz ≡ some khz)
    × (clocks_calc_mult_shift khz 1000000 0 ≡ some (mult, shift))
    × (a' ≡ record a {
      pid = sys.getpid;
      tid_off = get_tid_off sys.memory sys.getpid;
      cpus = sys.cpus;
      cpu_set = set;
      tsc_khz = khz;
      mult = mult;
      shift = shift;
      tsc_thresh = ticks_of_ns F khz a.thresh_ns;
      tsc_runtime = ticks_of_s F khz a.runtime_s;
    })

set_params-Built :
    (F : Double) (sys : System) (a a' : Args) → set_params F sys a ≡ some a' → Built F sys a a'
unfolding set_params
set_params-Built F sys a a' h = elim (Option-cases (select_cpus sys a.cpu_set)) [
  | inl bad ↦ cc (rw (bad, set_params) at h)
  | inr (set, e1) ↦ elim (Option-cases (select_khz sys a.tsc_khz)) [
    | inl bad ↦ cc (rw (e1, bad, set_params) at h)
    | inr (khz, e2) ↦ elim (Option-cases (clocks_calc_mult_shift khz 1000000 0)) [
      | inl bad ↦ cc (rw (e1, e2, bad, set_params) at h)
      | inr ((mult, shift), e3) ↦
          (set, khz, mult, shift, e1, e2, e3, sym (of_some (rw (e1, e2, e3, set_params) at h)))
    ]
  ]
]

abbrev pub IsCalibrated : ℕ → ℕ → ℕ → Type 0
IsCalibrated khz mult shift =
    (0 < khz) × (mult ≡ (1000000 * 2 ^ shift + khz / 2) / khz) × (12 ≤ shift) × (shift ≤ 32)

IsCalibrated-ap :
    {khz k mult m shift s : ℕ}
    → khz ≡ k
    → mult ≡ m
    → shift ≡ s
    → IsCalibrated k m s
    → IsCalibrated khz mult shift
IsCalibrated-ap e1 e2 e3 h = rw (e1, e2, e3) h

-- If `set_params` succeeds with a 32-bit frequency, and the measuring time is at least a second and
-- at most 2 ^ 53 ticks, then the frequency is not 0, the multiplier is the rounded quotient for its
-- shift, the shift is from 12 to 32, and the measuring time in ticks is exact.
pub set_params-IsCalibrated :
    (F : Double) (sys : System) (a a' : Args)
    → set_params F sys a ≡ some a'
    → a'.tsc_khz < 2 ^ 32
    → 0 < a.runtime_s
    → a'.tsc_khz * 1000 * a.runtime_s ≤ 2 ^ 53
    → IsCalibrated a'.tsc_khz a'.mult a'.shift × (a'.tsc_runtime ≡ a'.tsc_khz * 1000 * a.runtime_s)
set_params-IsCalibrated F sys a a' h small pos_s fits =
    let (set, khz, mult, shift, e1, e2, e3, made) = set_params-Built F sys a a' h in
    let khz-a : a'.tsc_khz ≡ khz = ap (λ x. x.tsc_khz) made in
    let khz-pos = select_khz-pos sys a.tsc_khz khz e2 in
    let (m, s, e, s-lo, s-hi, m-small, quotient) = calibration khz khz-pos (omega arith) in
    let same = of_some (sym e ∙ e3) in
    let mult-a : a'.mult ≡ m = ap (λ x. x.mult) made ∙ ap (λ (p : ℕ × ℕ). p.0) (sym same) in
    let shift-a : a'.shift ≡ s = ap (λ x. x.shift) made ∙ ap (λ (p : ℕ × ℕ). p.1) (sym same) in
    let khz-fits : khz * 1000 * a.runtime_s ≤ 2 ^ 53 =
      subst (λ x. x * 1000 * a.runtime_s ≤ 2 ^ 53) khz-a fits in
    let time = ap (λ x. x.tsc_runtime) made ∙ ticks_of_s_exact F khz a.runtime_s pos_s khz-fits in
    (
      IsCalibrated-ap khz-a mult-a shift-a (khz-pos, quotient, s-lo, s-hi),
      time ∙ ap (λ x. x * 1000 * a.runtime_s) (sym khz-a),
    )
