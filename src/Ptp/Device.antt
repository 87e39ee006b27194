-- ===== src/Ptp/Device.antt =====
-- `mk_if_fd`, `get_ptp_dev` and `main` of ptp-clock-offset.c. What the system calls return is an
-- argument.
pub mod Laws
pub mod Names
pub mod Perf
use Prim.Native.Nat.{zero, suc}
use osjitter.Prelude.{
  ℕ, ◌+◌, ◌-◌, ◌*◌, ◌/◌, ◌%◌, ◌^◌, ◌≡◌, refl, Bool, true, false, not, List, [], ◌∷◌, ◌++◌, Option,
  none, some, length, ltb, ◌==◌, if◌then◌else◌,
}
use osjitter.Prelude.Text.{codes, str_eq}
use osjitter.Prelude.Int.{ℤ, pos, negsuc}
use osjitter.Util.Khz
use osjitter.Util.Khz.{Run}
use osjitter.Util.Perf.{PerfRun, segfault, failed, scaled_by}
use osjitter.Util.Scale.{clocks_calc_mult_shift}
use osjitter.Ptp.Clock.{SfcTs}
use osjitter.Ptp.Offsets.{
  Printed, Clocks, read_clock_offset, PtpSysOffset, read_ptp_offset, PtpSysOffsetExtended,
  read_ptp_offset_extended, PtpSysOffsetPrecise, read_ptp_offset_precise, read_sfc_offset,
}

-- `%d`, on fuel: a number has at most as many digits as there is fuel.
unfoldable pub show_ℕ : ℕ → ℕ → List ℕ
show_ℕ zero n = []
show_ℕ (suc f) n =
    let front = show_ℕ f (n / 10) in
    if ltb n 10 then (b'0' + n) ∷ [] else front ++ (b'0' + n % 10) ∷ []

-- An `int` has ten digits.
unfoldable pub show_int : ℤ → List ℕ
unfolding show_ℕ
show_int (pos n) = show_ℕ 10 n
show_int (negsuc n) = b'-' ∷ show_ℕ 10 (n + 1)

-- What the two requests of ETHTOOL return, with `none` for -1: the index of the clock, and the name of
-- the driver. Between them the name of the device is allocated.
pub record Ethtool : Type 0 where
  pub ts_info : Option ℤ
  pub allocates : Bool
  pub drvinfo : Option (List ℕ)

-- The return value, `*dev` and `*is_sfc`.
pub data Found : Type 0 where
  -- `strcpy` writes behind the end of `ifr_name`
  overflow : Found
  found : ℤ → List ℕ → Bool → Found

-- the size of `ifr_name`, with its NUL
abbrev pub ifnamsiz : ℕ
ifnamsiz = 16

-- the second request
unfoldable pub ask_driver : List ℕ → Option (List ℕ) → Bool → Found
ask_driver dev none is_sfc = found (pos 1) dev is_sfc
ask_driver dev (some driver) is_sfc =
    found (pos 0) dev (if str_eq driver (codes "sfc") then true else is_sfc)

-- what follows the first request
unfoldable pub on_index : Ethtool → Option ℤ → List ℕ → Bool → Found
unfolding ask_driver show_int
on_index answers none dev is_sfc = found (negsuc 0) dev is_sfc
on_index answers (some (negsuc zero)) dev is_sfc = found (negsuc 0) dev is_sfc
on_index answers (some phc_index) dev is_sfc =
    if answers.allocates
    then ask_driver (codes "/dev/ptp" ++ show_int phc_index) answers.drvinfo is_sfc
    else found (negsuc 0) dev is_sfc

unfoldable pub get_ptp_dev : Ethtool → List ℕ → List ℕ → Bool → Found
unfolding on_index
get_ptp_dev answers if_name dev is_sfc =
    if ltb (length if_name) ifnamsiz then on_index answers answers.ts_info dev is_sfc else overflow

-- What the system answers to `main`. The counter is read twice for each ioctl that is measured.
pub record Answers : Type 0 where
  pub socket : Option ℕ
  pub ethtool : Ethtool
  pub open_dev : List ℕ → Option ℕ
  pub gettime : Clocks
  pub offset : Option PtpSysOffset
  pub extended : Option PtpSysOffsetExtended
  pub precise : Option PtpSysOffsetPrecise
  pub sfc : Option SfcTs
  pub tsc : ℕ → ℕ

-- the ways to measure, with what they print
pub data Section : Type 0 where
  by_clock : Printed → Section
  by_offset : Printed → Section
  by_extended : Printed → Section
  by_precise : Printed → Section
  by_sfc : Printed → Section

-- How the program ends: its exit status and output, and the descriptors that it has got and closed.
pub record Exit : Type 0 where
  pub status : ℕ
  pub output : List Section
  pub opened : List ℕ
  pub closed : List ℕ

pub data Ended : Type 0 where
  -- an overflow, or a division by zero
  crashed : Ended
  exited : Exit → Ended

abbrev pub gives_up : List ℕ → Ended
gives_up opened = exited (record { status = 1; output = []; opened = opened; closed = [] })

module _ (answers : Answers) (mult shift : ℕ) where
  unfoldable pub measure_all : ℕ → Bool → List Section
  measure_all fd is_sfc =
      by_clock (read_clock_offset answers.gettime fd)
      ∷ by_offset (read_ptp_offset mult shift (answers.tsc 0) (answers.tsc 1) answers.offset)
      ∷ by_extended
          (read_ptp_offset_extended mult shift (answers.tsc 2) (answers.tsc 3) answers.extended)
      ∷ by_precise
          (read_ptp_offset_precise mult shift (answers.tsc 4) (answers.tsc 5) answers.precise)
      ∷ (if is_sfc
          then by_sfc (read_sfc_offset mult shift (answers.tsc 6) (answers.tsc 7) answers.sfc) ∷ []
          else [])

  -- from `open` on; `if_fds` holds the descriptor of the interface, if there is one
  unfoldable pub with_device : List ℕ → List ℕ → Bool → Ended
  unfolding measure_all
  with_device if_fds dev is_sfc = elim (answers.open_dev dev) [
    | none ↦ gives_up if_fds
    | some fd ↦ exited (record {
      status = 0;
      output = measure_all fd is_sfc;
      opened = if_fds ++ fd ∷ [];
      closed = if_fds ++ fd ∷ [];
    })
  ]

  abbrev pub with_found : ℕ → Found → Ended
  unfolding with_device
  with_found if_fd overflow = crashed
  with_found if_fd (found (negsuc zero) dev is_sfc) = gives_up (if_fd ∷ [])
  with_found if_fd (found r dev is_sfc) = with_device (if_fd ∷ []) dev is_sfc

  -- an argument that is no path
  unfoldable pub with_interface : Option ℕ → List ℕ → Ended
  unfolding get_ptp_dev
  with_interface none if_name = gives_up []
  with_interface (some if_fd) if_name =
      with_found if_fd (get_ptp_dev answers.ethtool if_name if_name false)

  unfoldable pub with_argument : List ℕ → Ended
  unfolding with_device with_interface
  with_argument [] = with_interface answers.socket []
  with_argument (c ∷ s) =
      if not (c == b'/')
      then with_interface answers.socket (c ∷ s)
      else with_device [] (c ∷ s) false

abbrev pub with_scale : Answers → List ℕ → Option (ℕ × ℕ) → Ended
unfolding with_argument
with_scale answers dev none = crashed
with_scale answers dev (some (mult, shift)) = with_argument answers mult shift dev

-- `get_tsc_khz` and `clocks_calc_mult_shift`
abbrev pub with_khz : Answers → List ℕ → Run → Ended
with_khz answers dev Khz.out_of_bounds = crashed
with_khz answers dev (Khz.returned (pos zero) khz) =
    with_scale answers dev (clocks_calc_mult_shift khz 1000000 0)
with_khz answers dev (Khz.returned r khz) = gives_up []

-- `argv`, and the answer of `get_tsc_khz`
unfoldable pub main : Answers → List (List ℕ) → Run → Ended
main answers [] khz = gives_up []
main answers (program ∷ []) khz = gives_up []
main answers (program ∷ dev ∷ rest) khz = with_khz answers dev khz

-- The build with PCO_READ_PERF asks `get_tsc_perf` in place of `get_tsc_khz`.
unfoldable pub main_perf : Answers → List (List ℕ) → PerfRun → Ended
unfolding with_argument
main_perf answers [] perf = gives_up []
main_perf answers (program ∷ []) perf = gives_up []
main_perf answers (program ∷ dev ∷ rest) segfault = crashed
main_perf answers (program ∷ dev ∷ rest) failed = gives_up []
main_perf answers (program ∷ dev ∷ rest) (scaled_by mult shift) =
    with_argument answers mult shift dev
