-- ===== src/Util/Khz.antt =====
-- How the programs learn the frequency of the counter, from util.c: `get_tsc_khz_proc`,
-- `get_tsc_khz_cmd`, `get_tsc_khz`. What the system calls return is an argument.
pub mod Parse
pub mod Sources
mod Examples
use Prim.Native.Nat.{zero, suc}
use osjitter.Prelude.{
  ℕ, ◌+◌, ◌-◌, ◌≡◌, refl, Bool, true, false, not, List, [], ◌∷◌, ◌++◌, Option, none, some, length,
  take, drop, arith, ltb, leb, ◌==◌, if◌then◌else◌,
}
use osjitter.Prelude.Text.{codes}
use osjitter.Prelude.Int.{ℤ, pos, negsuc, ltb_ℤ}
use osjitter.Util.Atoi.{atoi}

-- `open`, `read` and `close` of a file under /sys. `read` returns the bytes, or `none` for -1.
pub data SysFile : Type 0 where
  missing : SysFile
  denied : SysFile
  opened : Option (List ℕ) → Bool → SysFile

-- The result of a function that may read or write outside its buffers.
pub data Run : Type 0 where
  out_of_bounds : Run
  returned : ℤ → ℕ → Run

-- drops the newline at the end of the bytes read
unfoldable pub chomp : List ℕ → List ℕ
chomp [] = []
chomp (c ∷ []) = if c == 10 then [] else c ∷ []
chomp (c ∷ d ∷ s) = c ∷ chomp (d ∷ s)

-- The return value, and `*tsc_khz`, which is `khz` at the call. At most 15 bytes are read.
unfoldable pub get_tsc_khz_proc : SysFile → ℕ → ℤ × ℕ
get_tsc_khz_proc missing khz = (pos 1, khz)
get_tsc_khz_proc denied khz = (negsuc 0, khz)
get_tsc_khz_proc (opened none closes) khz = (negsuc 0, khz)
get_tsc_khz_proc (opened (some bytes) closes) khz =
    ((if closes then pos 0 else negsuc 0), atoi (chomp (take 15 bytes)))

-- `popen`, one `getline` and `pclose`. A line has its newline.
pub data Pipe : Type 0 where
  no_pipe : Pipe
  getline_error : Pipe
  end_of_file : Pipe
  a_line : List ℕ → Bool → Pipe

-- `mempcpy` of `len` bytes at the offset `off` of the line; `none` outside of it
unfoldable pub copy : List ℕ → ℕ → ℕ → Option (List ℕ)
copy line off len = if ltb (length line) (off + len) then none else some (take len (drop off line))

-- The two copies into `char buf[16]` and the NUL behind them.
unfoldable pub khz_text : List ℕ → Option (List ℕ)
khz_text line =
    let l = length line in
    elim (copy line 1 (l - 1 - 8 - 1)) [
      | none ↦ none
      | some whole ↦ elim (copy line (l - 7 - 1) 3) [
        | none ↦ none
        | some part ↦ if ltb 16 (length (whole ++ part) + 1) then none else some (whole ++ part)
      ]
    ]

unfoldable pub get_tsc_khz_cmd : Pipe → ℕ → Run
get_tsc_khz_cmd no_pipe khz = returned (pos 1) khz
get_tsc_khz_cmd getline_error khz = returned (negsuc 0) khz
get_tsc_khz_cmd end_of_file khz = returned (pos 0) khz
get_tsc_khz_cmd (a_line line closes) khz =
    if ltb (15 + 7) (length line)
    then returned (negsuc 0) khz
    else if ltb (length line) 11
    then returned (pos 0) khz
    else elim (khz_text line) [
      | none ↦ out_of_bounds
      | some buf ↦ returned (if closes then pos 0 else negsuc 0) (atoi buf)
    ]

-- the rest of a chain of sources, unless this one failed
unfoldable pub unless_failed : Run → (ℕ → Run) → Run
unless_failed out_of_bounds next = out_of_bounds
unless_failed (returned r khz) next = if ltb_ℤ r (pos 0) then returned r khz else next khz

-- asks a pipe if the frequency is not known yet
unfoldable pub ask : Pipe → ℕ → (ℕ → Run) → Run
unfolding unless_failed
ask p khz next = if khz == 0 then unless_failed (get_tsc_khz_cmd p khz) next else next khz

-- `journalctl` is asked first, then `dmesg`.
unfoldable pub get_tsc_khz : SysFile → Pipe → Pipe → Run
unfolding ask
get_tsc_khz file journal dmesg =
    let (r, khz) = get_tsc_khz_proc file 0 in
    unless_failed (returned r khz) λ khz1. ask journal khz1 λ khz2.
      ask dmesg khz2 λ khz3. if khz3 == 0 then returned (negsuc 0) khz3 else returned (pos 0) khz3

get_tsc_khz_runs :
    (get_tsc_khz missing (a_line (codes " 2200.123 MHz\n") true) no_pipe ≡ returned (pos 0) 2200123)
    × (get_tsc_khz (opened (some (codes "2400000\n")) true) no_pipe no_pipe
        ≡ returned (pos 0) 2400000)
    × (get_tsc_khz missing no_pipe end_of_file ≡ returned (negsuc 0) 0)
unfolding get_tsc_khz get_tsc_khz_proc get_tsc_khz_cmd khz_text copy chomp osjitter.Util.Atoi.atoi
get_tsc_khz_runs = (refl, refl, refl)
