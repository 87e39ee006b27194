-- ===== src/Jitter/Args.antt =====
-- `struct Args` and `parse_args` of osjitter.c. An `int` or `uint32_t` is its 32-bit pattern.
pub mod Laws
use Prim.Native.Nat.{zero, suc}
use osjitter.Prelude.{
  ℕ, ◌+◌, ◌-◌, ◌*◌, ◌≡◌, refl, Bool, true, false, ◌||◌, List, [], ◌∷◌, Option, none, some, arith,
  ltb, leb, ◌==◌, if◌then◌else◌,
}
use osjitter.Prelude.Text.{codes, str_eq}
use osjitter.Prelude.Words.{u32}
use osjitter.Util.Atoi.{atoi}
use osjitter.Jitter.CpuSet
use osjitter.Jitter.CpuSet.{CpuSet, cpu_zero, cpu_set_range}

pub record Args : Type 0 where
  pub cpus : ℕ
  pub cpu_set : CpuSet
  pub sched_policy : ℕ
  pub sched_prio : ℕ
  pub runtime_s : ℕ
  pub thresh_ns : ℕ
  pub tsc_khz : ℕ
  pub mult : ℕ
  pub shift : ℕ
  pub tsc_thresh : ℕ
  pub tsc_runtime : ℕ
  pub samples : ℕ
  pub pid : ℕ
  pub tid_off : ℕ

-- `(const Args){0}` with the set of CPUs emptied
abbrev pub no_args : Args
no_args = record {
  cpus = 0;
  cpu_set = cpu_zero;
  sched_policy = 0;
  sched_prio = 0;
  runtime_s = 0;
  thresh_ns = 0;
  tsc_khz = 0;
  mult = 0;
  shift = 0;
  tsc_thresh = 0;
  tsc_runtime = 0;
  samples = 0;
  pid = 0;
  tid_off = 0;
}

-- the chain of `strcmp` tests
pub data Flag : Type 0 where
  cpu period threshold sched prio khz help unknown : Flag

unfoldable pub flag_of : List ℕ → Flag
flag_of s =
    if str_eq s (codes "--cpu")
    then cpu
    else if str_eq s (codes "-t")
    then period
    else if str_eq s (codes "-d")
    then threshold
    else if str_eq s (codes "--sched")
    then sched
    else if str_eq s (codes "--prio")
    then prio
    else if str_eq s (codes "--khz")
    then khz
    else if str_eq s (codes "-h") || str_eq s (codes "--help")
    then help
    else unknown

-- `strchr(s, '-')`: the text before the first dash and the text behind it
unfoldable pub split_dash : List ℕ → Option (List ℕ × List ℕ)
split_dash [] = none
split_dash (c ∷ s) = elim (c == b'-') [
  | true ↦ some ([], s)
  | false ↦ elim (split_dash s) [ none ↦ none | some (before, after) ↦ some (c ∷ before, after) ]
]

-- The argument of `--cpu`; `none` is a range that is out of range.
unfoldable pub parse_cpus : List ℕ → CpuSet → Option CpuSet
unfolding split_dash cpu_set_range
parse_cpus v s = elim (split_dash v) [
  | none ↦ some (CpuSet.cpu_set (atoi v) s)
  | some (before, after) ↦
      let b = atoi before in
      let e = atoi after in
      if leb 1024 b || leb 1024 e then none else some (cpu_set_range (e + 1 - b) b s)
]

pub data Parsed : Type 0 where
  -- the return value -1
  refused : Parsed
  -- `exit(0)` behind the help text
  helped : Parsed
  accepted : Args → Parsed

-- One option with its argument.
unfoldable pub set_arg : Flag → List ℕ → Args → Parsed
unfolding parse_cpus
set_arg cpu v a = elim (parse_cpus v a.cpu_set) [
  | none ↦ refused
  | some s ↦ accepted (record a { cpu_set = s })
]
set_arg period v a = accepted (record a { runtime_s = atoi v })
set_arg threshold v a = accepted (record a { thresh_ns = atoi v })
set_arg sched v a =
    accepted (record a {
      sched_policy = atoi v;
      sched_prio = if a.sched_prio == 0 then 1 else a.sched_prio;
    })
set_arg prio v a = accepted (record a { sched_prio = atoi v })
set_arg khz v a = accepted (record a { tsc_khz = atoi v })
set_arg help v a = helped
set_arg unknown v a = refused

-- An option that ends the arguments: its own argument is missing.
unfoldable pub last_arg : Flag → Parsed
last_arg help = helped
last_arg _ = refused

-- the `for` loop over the arguments behind `argv[0]`
unfoldable pub parse_loop : List (List ℕ) → Args → Parsed
parse_loop [] a = accepted a
parse_loop (s ∷ []) a = last_arg (flag_of s)
parse_loop (s ∷ v ∷ rest) a = elim (set_arg (flag_of s) v a) [
  | refused ↦ refused
  | helped ↦ helped
  | accepted b ↦ parse_loop rest b
]

-- What follows the loop. `runtime_s * 105000` is a product of 32 bits.
unfoldable pub set_defaults : Args → Args
set_defaults a =
    let runtime = (if a.runtime_s == 0 then 10 else a.runtime_s) in
    record a {
      runtime_s = runtime;
      thresh_ns = if a.thresh_ns == 0 then 100 else a.thresh_ns;
      samples = if a.samples == 0 then u32 (runtime * 105000) else a.samples;
    }

-- `parse_args` on the arguments behind `argv[0]`
unfoldable pub parse_args : List (List ℕ) → Parsed
unfolding parse_loop set_defaults
parse_args argv = elim (parse_loop argv no_args) [
  | refused ↦ refused
  | helped ↦ helped
  | accepted a ↦ accepted (set_defaults a)
]
