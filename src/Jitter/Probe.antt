-- ===== src/Jitter/Probe.antt =====
-- What osjitter.c asks of the system before it measures: `is_cpu_online`, `check_cpuinfo`,
-- `get_tid_off` and `pthread_to_tid`. The system's answers are arguments.
pub mod Laws
use Prim.Native.Nat.{zero, suc}
use osjitter.Prelude.{
  ℕ, ◌+◌, ◌-◌, ◌*◌, ◌%◌, ◌≤◌, ◌<◌, ◌≡◌, ◌≢◌, ◌↔◌, ◌⊎◌, inl, inr, refl, Bool, true, false, ◌&&◌,
  ◌||◌, List, [], ◌∷◌, Option, none, some, get_or, take, arith, ltb, ◌==◌, if◌then◌else◌,
  Bool-cases,
}
use osjitter.Prelude.Text.{codes, str_eq}
use osjitter.Prelude.Int.{ℤ, pos, negsuc}
use osjitter.Util.Khz.{SysFile, missing, denied, opened}

-- `*b`, or `none` for the return of -1. Two bytes are read into a buffer of zeros.
unfoldable pub is_cpu_online : SysFile → Option Bool
is_cpu_online missing = some true
is_cpu_online denied = none
is_cpu_online (opened none closes) = none
is_cpu_online (opened (some bytes) closes) =
    if closes
    then some (get_or (take 2 bytes) 0 0 == b'1' && get_or (take 2 bytes) 1 0 == 10)
    else none

-- The lines of a pipe: whether it ended at the end of the file, and what `pclose` did.
pub data Lines : Type 0 where
  no_pipe : Lines
  lines : (ls : List (List ℕ)) (at_eof closes : Bool) → Lines

-- whether some line is `s`, if `found` says so or one of the lines is
unfoldable pub seen : List ℕ → Bool → List (List ℕ) → Bool
seen s found [] = found
seen s found (l ∷ ls) = seen s (if str_eq l s then true else found) ls

unfoldable pub check_cpuinfo : Lines → ℤ
check_cpuinfo no_pipe = negsuc 0
check_cpuinfo (lines ls at_eof closes) =
    if at_eof
    then (if closes
        then (let constant_tsc = seen (codes "constant_tsc\n") false ls in
            let nonstop_tsc = seen (codes "nonstop_tsc\n") false ls in
            if constant_tsc then if nonstop_tsc then pos 0 else pos 1 else pos 1)
        else negsuc 0)
    else negsuc 0

-- The 32-bit words of a thread's control block, by their offset.
abbrev pub Memory : Type 0
Memory = ℕ → ℕ

-- `n` rounds of the loop over the offsets, from `p` on
unfoldable pub tid_loop : ℕ → ℕ → Memory → ℕ → ℕ
tid_loop zero p m pid = 0
tid_loop (suc n) p m pid = if m p == pid then p else tid_loop n (p + 4) m pid

-- The offsets from 128 below 1024, in steps of 4: 224 of them.
unfoldable pub get_tid_off : Memory → ℕ → ℕ
unfolding tid_loop
get_tid_off m pid = tid_loop 224 128 m pid

unfoldable pub pthread_to_tid : Memory → ℕ → ℕ
pthread_to_tid m off = m off
