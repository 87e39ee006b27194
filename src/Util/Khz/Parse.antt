-- ===== src/Util/Khz/Parse.antt =====
-- The line of the kernel's log in `get_tsc_khz_cmd` of util.c: what is read from it, and that the
-- copies stay inside the line and the buffer.
use osjitter.Prelude.{
  ℕ, ◌+◌, ◌-◌, ◌^◌, ◌≤◌, ◌<◌, ◌≡◌, ◌≢◌, ap, ◌∙◌, true, false, List, [], ◌∷◌, ◌++◌, some, All,
  All-append, length, length-append, length-take, take, take-append_exact, drop, drop-append, arith,
  ltb,
}
use osjitter.Prelude.Text.{codes}
use osjitter.Prelude.Int.{pos}
use osjitter.Util.Atoi.{IsDigit, decimal, atoi-decimal}
use osjitter.Util.Khz.{
  out_of_bounds, returned, Pipe, no_pipe, getline_error, end_of_file, a_line, copy, khz_text,
  get_tsc_khz_cmd,
}

copy-safe :
    (line : List ℕ) (off len : ℕ)
    → off + len ≤ length line
    → copy line off len ≡ some (take len (drop off line))
unfolding copy
copy-safe line off len h = ground arith

-- For every line that passes the two length tests the copies stay in bounds.
khz_text-safe :
    (line : List ℕ)
    → 11 ≤ length line
    → length line ≤ 22
    → khz_text line
      ≡ some
          (take (length line - 1 - 8 - 1) (drop 1 line) ++ take 3 (drop (length line - 7 - 1) line))
unfolding khz_text
khz_text-safe line low high =
    let l = length line in
    let whole = take (l - 1 - 8 - 1) (drop 1 line) in
    let part = take 3 (drop (l - 7 - 1) line) in
    let size : length (whole ++ part) + 1 ≤ 16 = omega (
      arith,
      length-append {0} whole part,
      length-take (l - 1 - 8 - 1) (drop 1 line),
      length-take 3 (drop (l - 7 - 1) line),
    ) in
    let fits : ltb 16 (length (whole ++ part) + 1) ≡ false = ground arith in
    rw (
      copy-safe line 1 (l - 1 - 8 - 1) (omega arith),
      copy-safe line (l - 7 - 1) 3 (omega arith),
      fits,
      khz_text,
    )

-- No line makes the function read outside the line or write outside its buffer.
pub get_tsc_khz_cmd_safe : (p : Pipe) (khz : ℕ) → get_tsc_khz_cmd p khz ≢ out_of_bounds
unfolding get_tsc_khz_cmd
get_tsc_khz_cmd_safe no_pipe khz = λ h. cc
get_tsc_khz_cmd_safe getline_error khz = λ h. cc
get_tsc_khz_cmd_safe end_of_file khz = λ h. cc
get_tsc_khz_cmd_safe (a_line line closes) khz = λ h. ground (arith, khz_text-safe line)

module _ (ds : List ℕ) (a b c : ℕ) where
  -- " 2200.123 MHz" and a newline, with `ds` before the point
  abbrev pub mhz_line : List ℕ
  mhz_line = 32 ∷ ds ++ b'.' ∷ a ∷ b ∷ c ∷ codes " MHz\n"

  length-mhz_line : length mhz_line ≡ length ds + 10
  length-mhz_line = omega (arith, length-append {0} ds (b'.' ∷ a ∷ b ∷ c ∷ codes " MHz\n"))

  khz_text-mhz_line :
      0 < length ds → length ds ≤ 12 → khz_text mhz_line ≡ some (ds ++ a ∷ b ∷ c ∷ [])
  khz_text-mhz_line low high =
      let l = length mhz_line in
      let tail = b'.' ∷ a ∷ b ∷ c ∷ codes " MHz\n" in
      let whole : take (l - 1 - 8 - 1) (ds ++ tail) ≡ ds =
        take-append_exact (l - 1 - 8 - 1) ds tail (omega (arith, length-mhz_line)) in
      let part : drop (l - 7 - 1) mhz_line ≡ a ∷ b ∷ c ∷ codes " MHz\n" =
        drop-append (32 ∷ ds) tail 1 (l - 7 - 1) (omega (arith, length-mhz_line)) in
      khz_text-safe mhz_line (omega (arith, length-mhz_line)) (omega (arith, length-mhz_line))
      ∙ ap (λ xs. some (xs ++ take 3 (drop (l - 7 - 1) mhz_line))) whole
      ∙ ap (λ xs. some (ds ++ take 3 xs)) part

-- From a line with a space, up to twelve digits, a point, three digits and the unit, from a pipe that
-- can be closed, the function reads the frequency in kHz: the number that all the digits spell, if it
-- is below 2 ^ 31.
pub get_tsc_khz_cmd-mhz_line :
    (d : ℕ) (ds : List ℕ) (a b c khz : ℕ)
    → length (d ∷ ds) ≤ 12
    → All IsDigit (d ∷ ds)
    → All IsDigit (a ∷ b ∷ c ∷ [])
    → decimal 0 (d ∷ ds ++ a ∷ b ∷ c ∷ []) < 2 ^ 31
    → get_tsc_khz_cmd (a_line (mhz_line (d ∷ ds) a b c) true) khz
      ≡ returned (pos 0) (decimal 0 (d ∷ ds ++ a ∷ b ∷ c ∷ []))
unfolding get_tsc_khz_cmd
get_tsc_khz_cmd-mhz_line d ds a b c khz high ds-digits frac-digits small =
    let size = length-mhz_line (d ∷ ds) a b c in
    let value =
      atoi-decimal d (ds ++ a ∷ b ∷ c ∷ [])
        (All-append IsDigit (d ∷ ds) (a ∷ b ∷ c ∷ []) ds-digits frac-digits) small in
    let not_long : ltb (15 + 7) (length (mhz_line (d ∷ ds) a b c)) ≡ false = ground (arith, size) in
    let not_short : ltb (length (mhz_line (d ∷ ds) a b c)) 11 ≡ false = ground (arith, size) in
    rw (not_long, not_short, khz_text-mhz_line (d ∷ ds) a b c (omega arith) high, value)
