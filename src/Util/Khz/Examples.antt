-- ===== src/Util/Khz/Examples.antt =====
-- The theorems on the frequency at concrete inputs.
use osjitter.Prelude.{◌≡◌, true, arith}
use osjitter.Prelude.Int.{pos}
use osjitter.Prelude.Text.{codes}
use osjitter.Util.Khz.{a_line, returned, get_tsc_khz_cmd}
use osjitter.Util.Khz.Parse.{get_tsc_khz_cmd-mhz_line}

get_tsc_khz_cmd-mhz_line_example :
    get_tsc_khz_cmd (a_line (codes " 2200.123 MHz\n") true) 0 ≡ returned (pos 0) 2200123
get_tsc_khz_cmd-mhz_line_example =
    get_tsc_khz_cmd-mhz_line b'2' (codes "200") b'1' b'2' b'3' 0 (omega arith) (omega arith)
      (omega arith) (omega arith)
