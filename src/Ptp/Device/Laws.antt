-- ===== src/Ptp/Device/Laws.antt =====
-- How `get_ptp_dev` and `main` of ptp-clock-offset.c end.
use Prim.Native.Nat.{zero, suc}
use osjitter.Prelude.{
  ℕ, ◌<◌, ◌≡◌, ◌≢◌, ◌⊎◌, inl, inr, refl, ap, sym, ◌∙◌, Bool, true, false, List, [], ◌∷◌, ◌++◌,
  Option, none, some, length, ◌==◌, if◌then◌else◌, Bool-cases, Option-cases, arith, lt→ltb,
  length-append,
}
use osjitter.Prelude.Text.{codes, str_eq, str_eq→≡}
use osjitter.Prelude.Int.{ℤ, pos, negsuc}
use osjitter.Util.Khz
use osjitter.Ptp.Device.{
  Ethtool, Found, overflow, found, ask_driver, on_index, get_ptp_dev, show_int, Answers, Ended,
  crashed, exited, measure_all, with_device, with_found, with_interface, with_argument,
}

-- With a failed request, no clock or no memory, -1 and nothing set. Otherwise the name has the index
-- of the clock, and the return value is 1 if the driver is not known.
abbrev pub IsFound : Ethtool → List ℕ → Bool → Found → Type 0
IsFound answers dev is_sfc overflow = ⊥
IsFound answers dev is_sfc (found r dev' is_sfc') =
    ((r ≡ negsuc 0) × (dev' ≡ dev) × (is_sfc' ≡ is_sfc))
    ⊎ ((i : ℤ) × (answers.ts_info ≡ some i)
        × (i ≢ negsuc 0)
        × (dev' ≡ codes "/dev/ptp" ++ show_int i)
        × (((r ≡ pos 1) × (answers.drvinfo ≡ none) × (is_sfc' ≡ is_sfc))
            ⊎ ((driver : List ℕ) × (r ≡ pos 0)
                × (answers.drvinfo ≡ some driver)
                × (is_sfc' ≡ (if str_eq driver (codes "sfc") then true else is_sfc)))))

ask_driver-IsFound :
    (answers : Ethtool) (dev : List ℕ) (is_sfc : Bool) (i : ℤ)
    → answers.ts_info ≡ some i
    → i ≢ negsuc 0
    → IsFound answers dev is_sfc
        (ask_driver (codes "/dev/ptp" ++ show_int i) answers.drvinfo is_sfc)
unfolding ask_driver
ask_driver-IsFound answers dev is_sfc i h ne = elim (Option-cases answers.drvinfo) [
  | inl unknown ↦ rw unknown (inr (i, h, ne, refl, inl (refl, refl, refl)))
  | inr (driver, known) ↦ rw known (inr (i, h, ne, refl, inr (driver, refl, refl, refl)))
]

on_index-IsFound :
    (answers : Ethtool) (index : Option ℤ) (dev : List ℕ) (is_sfc : Bool)
    → answers.ts_info ≡ index
    → IsFound answers dev is_sfc (on_index answers index dev is_sfc)
unfolding on_index
on_index-IsFound answers none dev is_sfc h = inl (refl, refl, refl)
on_index-IsFound answers (some (negsuc zero)) dev is_sfc h = inl (refl, refl, refl)
on_index-IsFound answers (some (pos n)) dev is_sfc h = elim (Bool-cases answers.allocates) [
  | inl memory ↦ rw memory (ask_driver-IsFound answers dev is_sfc (pos n) h λ e. cc)
  | inr fails ↦ rw fails (inl (refl, refl, refl))
]
on_index-IsFound answers (some (negsuc (suc n))) dev is_sfc h =
    elim (Bool-cases answers.allocates) [
      | inl memory ↦ rw memory (ask_driver-IsFound answers dev is_sfc (negsuc (suc n)) h λ e. cc)
      | inr fails ↦ rw fails (inl (refl, refl, refl))
    ]

-- For a name of an interface that fits its 15 bytes, `get_ptp_dev` ends in one of three ways: with -1
-- if the request fails, there is no clock, or the allocation fails, and nothing is set; with the name
-- of the clock's device and 1 if the driver cannot be asked; with that name, 0, and `is_sfc` set if
-- the driver is "sfc".
pub get_ptp_dev-IsFound :
    (answers : Ethtool) (if_name dev : List ℕ) (is_sfc : Bool)
    → length if_name < 16
    → IsFound answers dev is_sfc (get_ptp_dev answers if_name dev is_sfc)
unfolding get_ptp_dev
get_ptp_dev-IsFound answers if_name dev is_sfc short =
    rw (lt→ltb (length if_name) 16 short) (on_index-IsFound answers answers.ts_info dev is_sfc refl)

-- The program has given up without a line of output, or it has run all ways to measure and closed
-- what it has opened.
abbrev pub IsExit : Answers → Ended → Type 0
IsExit answers crashed = ⊥
IsExit answers (exited x) =
    ((x.status ≡ 1) × (x.output ≡ []) × (x.closed ≡ []))
    ⊎ ((x.status ≡ 0)
        × (x.closed ≡ x.opened)
        × ((mult shift fd : ℕ) × (is_sfc : Bool) × (x.output
              ≡ measure_all answers mult shift fd is_sfc)
            × ((is_sfc ≡ true)
                → (answers.ethtool.drvinfo ≡ some (codes "sfc")) × (length x.opened ≡ 2))))

-- the program has opened the interface and its driver is "sfc"
abbrev IsSfc : Answers → List ℕ → Bool → Type 0
IsSfc answers if_fds is_sfc =
    (is_sfc ≡ true) → (answers.ethtool.drvinfo ≡ some (codes "sfc")) × (length if_fds ≡ 1)

module _ (answers : Answers) (mult shift : ℕ) where
  with_device-IsExit :
      (if_fds dev : List ℕ) (is_sfc : Bool)
      → IsSfc answers if_fds is_sfc
      → IsExit answers (with_device answers mult shift if_fds dev is_sfc)
  unfolding with_device
  with_device-IsExit if_fds dev is_sfc h = elim (Option-cases (answers.open_dev dev)) [
    | inl fails ↦ rw (IsExit, fails) (inl (refl, refl, refl))
    | inr (fd, opens) ↦
        rw (IsExit, opens)
          (inr (
            refl,
            refl,
            (
              mult,
              shift,
              fd,
              is_sfc,
              refl,
              λ sfc. ((h sfc).0, omega (arith, h sfc, length-append if_fds (fd ∷ []))),
            ),
          ))
  ]

false-ne-true : {b : Bool} → b ≡ false → b ≢ true
false-ne-true h k = cc

sfc_of_test :
    (driver : List ℕ)
    → (if str_eq driver (codes "sfc") then true else false) ≡ true
    → driver ≡ codes "sfc"
sfc_of_test driver h = elim (Bool-cases (str_eq driver (codes "sfc"))) [
  | inl same ↦ str_eq→≡ driver (codes "sfc") same
  | inr differ ↦ absurd (false-ne-true (rw differ refl) h)
]

found-sfc :
    (answers : Ethtool) (r : ℤ) (dev dev' : List ℕ) (is_sfc : Bool)
    → IsFound answers dev false (found r dev' is_sfc)
    → is_sfc ≡ true
    → answers.drvinfo ≡ some (codes "sfc")
found-sfc answers r dev dev' is_sfc (inl (_, _, unset)) sfc = absurd (false-ne-true unset sfc)
found-sfc answers r dev dev' is_sfc (inr (_, _, _, _, inl (_, _, unset))) sfc =
    absurd (false-ne-true unset sfc)
found-sfc answers r dev dev' is_sfc (inr (_, _, _, _, inr (driver, _, known, e))) sfc =
    known ∙ ap some (sfc_of_test driver (sym e ∙ sfc))

-- A path starts with a slash.
abbrev pub IsPath : List ℕ → Type 0
IsPath [] = ⊥
IsPath (c ∷ s) = c ≡ b'/'

module _ (answers : Answers) (mult shift : ℕ) where
  with_found-IsExit :
      (if_fd : ℕ) (dev : List ℕ) (f : Found)
      → IsFound answers.ethtool dev false f
      → IsExit answers (with_found answers mult shift if_fd f)
  unfolding with_found
  with_found-IsExit if_fd dev overflow h = absurd h
  with_found-IsExit if_fd dev (found (negsuc zero) dev' is_sfc) h = inl (refl, refl, refl)
  with_found-IsExit if_fd dev (found (pos r) dev' is_sfc) h =
      with_device-IsExit answers mult shift (if_fd ∷ []) dev' is_sfc
        λ sfc. (found-sfc answers.ethtool (pos r) dev dev' is_sfc h sfc, refl)
  with_found-IsExit if_fd dev (found (negsuc (suc r)) dev' is_sfc) h =
      with_device-IsExit answers mult shift (if_fd ∷ []) dev' is_sfc
        λ sfc. (found-sfc answers.ethtool (negsuc (suc r)) dev dev' is_sfc h sfc, refl)

  with_interface-IsExit :
      (socket : Option ℕ) (if_name : List ℕ)
      → length if_name < 16
      → IsExit answers (with_interface answers mult shift socket if_name)
  unfolding with_interface
  with_interface-IsExit none if_name short = inl (refl, refl, refl)
  with_interface-IsExit (some if_fd) if_name short =
      with_found-IsExit if_fd if_name (get_ptp_dev answers.ethtool if_name if_name false)
        (get_ptp_dev-IsFound answers.ethtool if_name if_name false short)

  pub with_argument-IsExit :
      (dev : List ℕ)
      → IsPath dev ⊎ (length dev < 16)
      → IsExit answers (with_argument answers mult shift dev)
  unfolding with_argument
  with_argument-IsExit [] h = with_interface-IsExit answers.socket [] (omega arith)
  with_argument-IsExit (c ∷ s) h = elim (Bool-cases (c == b'/')) [
    | inl path ↦ rw (IsExit, path) (with_device-IsExit answers mult shift [] (c ∷ s) false λ e. cc)
    | inr name ↦ rw (IsExit, name) (with_interface-IsExit answers.socket (c ∷ s) (fits h (λ e. cc)))
  ]
    where
      fits : IsPath (c ∷ s) ⊎ (length (c ∷ s) < 16) → c ≢ b'/' → length (c ∷ s) < 16
      fits (inl path) differs = absurd (differs path)
      fits (inr short) differs = short
