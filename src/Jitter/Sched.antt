-- ===== src/Jitter/Sched.antt =====
-- `read_proc_sched` of osjitter.c: the involuntary switches in a thread's file under /proc. What the
-- system calls return is an argument; the file's bytes are none where a call fails.
pub mod Line
use Prim.Native.Nat.{min}
use osjitter.Prelude.{
  ℕ, ◌+◌, ◌-◌, ◌%◌, ◌^◌, ◌≡◌, refl, Bool, true, false, List, [], ◌∷◌, Option, none, some, take,
  arith, ◌==◌, if◌then◌else◌,
}
use osjitter.Prelude.Text.{codes}
use osjitter.Util.Atoi.{digits}
use osjitter.Jitter.Measure.{Worker}

-- the bytes behind `q`, if `s` starts with it
unfoldable pub strip : List ℕ → List ℕ → Option (List ℕ)
strip [] s = some s
strip (c ∷ q) [] = none
strip (c ∷ q) (d ∷ s) = if c == d then strip q s else none

-- `memmem` and the addition of the length: the bytes behind the first occurrence of `q`
unfoldable pub behind : List ℕ → List ℕ → Option (List ℕ)
unfolding strip
behind q [] = strip q []
behind q (d ∷ s) = elim (strip q (d ∷ s)) [ none ↦ behind q s | some rest ↦ some rest ]

-- `memchr`: the bytes before the first newline
unfoldable pub line_of : List ℕ → Option (List ℕ)
line_of [] = none
line_of (c ∷ s) = elim (c == 10) [
  | true ↦ some []
  | false ↦ elim (line_of s) [ none ↦ none | some l ↦ some (c ∷ l) ]
]

-- `memrchr`: the bytes behind the last space
unfoldable pub last_word : List ℕ → Option (List ℕ)
last_word [] = none
last_word (c ∷ s) = elim (last_word s) [
  | some w ↦ some w
  | none ↦ elim (c == 32) [ true ↦ some s | false ↦ none ]
]

-- The C library's `atol` on a word without a leading space, as a 64-bit pattern.
unfoldable pub atol : List ℕ → ℕ
unfolding digits
atol [] = 0
atol (c ∷ s) =
    if c == b'-'
    then (2 ^ 64 - min (digits 0 s) (2 ^ 63)) % 2 ^ 64
    else if c == b'+'
    then min (digits 0 s) (2 ^ 63 - 1)
    else min (digits 0 (c ∷ s)) (2 ^ 63 - 1)

abbrev pub key : List ℕ
key = codes "nr_involuntary_switches"

-- `none` is the return value -1. 4096 bytes are read at most.
unfoldable pub read_proc_sched : Option (List ℕ) → Bool → Worker → Option Worker
unfolding behind line_of last_word atol
read_proc_sched none closes w = none
read_proc_sched (some bytes) closes w = elim (behind key (take 4096 bytes)) [
  | none ↦ none
  | some rest ↦ elim (line_of rest) [
    | none ↦ none
    | some line ↦ elim (last_word line) [
      | none ↦ none
      | some word ↦ if closes then some (record w { invol_switch = atol word }) else none
    ]
  ]
]
