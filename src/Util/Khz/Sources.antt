-- ===== src/Util/Khz/Sources.antt =====
-- The order of the sources in `get_tsc_khz` of util.c.
use osjitter.Prelude.{
  ℕ, ◌≡◌, ◌≢◌, ◌⊎◌, inl, inr, refl, true, List, [], ◌∷◌, All, Bool-cases, arith, ◌<◌, ◌==◌,
  if◌then◌else◌,
}
use osjitter.Prelude.Int.{ℤ, pos, negsuc, ltb_ℤ}
use osjitter.Util.Khz.{
  SysFile, Run, out_of_bounds, returned, Pipe, get_tsc_khz_proc, get_tsc_khz_cmd, ask, get_tsc_khz,
}
use osjitter.Util.Khz.Parse.{get_tsc_khz_cmd_safe}

-- The first source that fails or knows a frequency decides. With none left it is a failure.
abbrev pub first_known : List Run → Run
first_known [] = returned (negsuc 0) 0
first_known (out_of_bounds ∷ rs) = out_of_bounds
first_known (returned r khz ∷ rs) =
    if ltb_ℤ r (pos 0)
    then returned r khz
    else if khz == 0
    then first_known rs
    else returned (pos 0) khz

abbrev pub as_run : ℤ × ℕ → Run
as_run (r, khz) = returned r khz

ask-known : (p : Pipe) (khz : ℕ) (next : ℕ → Run) → khz ≢ 0 → ask p khz next ≡ next khz
unfolding ask
ask-known p khz next h = ground arith

-- `get_tsc_khz` asks the file, the journal and the kernel's buffer in this order.
pub get_tsc_khz-first_known :
    (file : SysFile) (journal dmesg : Pipe)
    → get_tsc_khz file journal dmesg
      ≡ first_known (
          as_run (get_tsc_khz_proc file 0)
          ∷ get_tsc_khz_cmd journal 0
          ∷ get_tsc_khz_cmd dmesg 0
          ∷ [])
unfolding get_tsc_khz
get_tsc_khz-first_known file journal dmesg = ground arith

-- A return value of 0 comes with a frequency that is not 0; any other is negative.
abbrev pub IsAnswer : Run → Type 0
IsAnswer out_of_bounds = ⊥
IsAnswer (returned r khz) = ((r ≡ pos 0) × (0 < khz)) ⊎ (ltb_ℤ r (pos 0) ≡ true)

first_known-IsAnswer : (rs : List Run) → All (λ r. r ≢ out_of_bounds) rs → IsAnswer (first_known rs)
first_known-IsAnswer [] h = inr refl
first_known-IsAnswer (out_of_bounds ∷ rs) h = absurd (h.0 refl)
first_known-IsAnswer (returned r khz ∷ rs) h = elim (Bool-cases (ltb_ℤ r (pos 0))) [
  | inl failed ↦ rw failed (inr failed)
  | inr fine ↦ elim (Bool-cases (khz == 0)) [
    | inl unknown ↦ rw (fine, unknown) (first_known-IsAnswer rs h.1)
    | inr known ↦ rw (fine, known) (inl (refl, ground arith))
  ]
]

-- Whatever the sources do, `get_tsc_khz` stays in bounds, and returns 0 with a frequency that is not
-- 0, or a negative number.
pub get_tsc_khz-IsAnswer :
    (file : SysFile) (journal dmesg : Pipe) → IsAnswer (get_tsc_khz file journal dmesg)
get_tsc_khz-IsAnswer file journal dmesg =
    let rs =
      as_run (get_tsc_khz_proc file 0) ∷ get_tsc_khz_cmd journal 0 ∷ get_tsc_khz_cmd dmesg 0 ∷ [] in
    let safe : All (λ r. r ≢ out_of_bounds) rs =
      (λ h. cc, (get_tsc_khz_cmd_safe journal 0, (get_tsc_khz_cmd_safe dmesg 0, tt))) in
    rw (get_tsc_khz-first_known file journal dmesg) (first_known-IsAnswer rs safe)
