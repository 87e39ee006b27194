-- ===== src/Ptp/Device/Perf.antt =====
-- How ptp-clock-offset ends if it is built with PCO_READ_PERF.
use osjitter.Prelude.{ℕ, ◌<◌, ◌≡◌, ◌≢◌, ◌⊎◌, ◌↔◌, inl, inr, refl, Bool, true, List, ◌∷◌, length}
use mathlib.Core.Path.{subst}
use osjitter.Util.Perf.{
  Mapped, map_failed, PerfRun, segfault, failed, scaled_by, get_tsc_perf, get_tsc_perf-segfault_iff,
}
use osjitter.Ptp.Device.{Answers, Ended, crashed, main_perf}
use osjitter.Ptp.Device.Laws.{IsExit, IsPath, with_argument-IsExit}

-- a run that has read through MAP_FAILED, or an exit
abbrev CrashesOrExits : Answers → PerfRun → Ended → Type 0
CrashesOrExits answers perf e =
    ((perf ≡ segfault) × (e ≡ crashed)) ⊎ ((perf ≢ segfault) × IsExit answers e)

main_perf-CrashesOrExits :
    (answers : Answers) (program dev : List ℕ) (rest : List (List ℕ)) (perf : PerfRun)
    → IsPath dev ⊎ (length dev < 16)
    → CrashesOrExits answers perf (main_perf answers (program ∷ dev ∷ rest) perf)
unfolding main_perf
main_perf-CrashesOrExits answers program dev rest segfault h = inl (refl, refl)
main_perf-CrashesOrExits answers program dev rest failed h = inr (λ e. cc, inl (refl, refl, refl))
main_perf-CrashesOrExits answers program dev rest (scaled_by mult shift) h =
    inr (λ e. cc, with_argument-IsExit answers mult shift dev h)

-- For an argument that is a path, or has less than 16 bytes, the program crashes exactly if the event
-- can be opened and its page cannot be mapped.
main_perf-crashed_iff :
    (answers : Answers) (program dev : List ℕ) (rest : List (List ℕ)) (opens : Bool)
    (mapped : Mapped) (unmaps : Bool)
    → IsPath dev ⊎ (length dev < 16)
    → (main_perf answers (program ∷ dev ∷ rest) (get_tsc_perf opens mapped unmaps) ≡ crashed)
      ↔ ((opens ≡ true) × (mapped ≡ map_failed))
main_perf-crashed_iff answers program dev rest opens mapped unmaps h =
    let (to, from) = get_tsc_perf-segfault_iff opens mapped unmaps in
    let ends =
      main_perf-CrashesOrExits answers program dev rest (get_tsc_perf opens mapped unmaps) h in
    elim ends [
      | inl (bad, crashes) ↦ (λ e. to bad, λ c. crashes)
      | inr (good, exits) ↦
          (λ e. absurd (subst (IsExit answers) e exits), λ c. absurd (good (from c)))
    ]
