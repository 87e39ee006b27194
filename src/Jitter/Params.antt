-- ===== src/Jitter/Params.antt =====
-- `set_params` of osjitter.c. The system's answers and the arithmetic of `double` are arguments.
pub mod Laws
pub mod Calibrated
use Prim.Native.Nat.{zero, suc}
use osjitter.Prelude.{
  ℕ, ◌+◌, ◌-◌, ◌*◌, ◌^◌, ◌≤◌, ◌<◌, ◌≡◌, refl, Bool, true, false, Option, none, some, arith, ltb,
  ◌==◌, if◌then◌else◌,
}
use osjitter.Prelude.Words.{u32, u64}
use osjitter.Prelude.Int.{ℤ, pos, ltb_ℤ}
use osjitter.Util.Scale.{clocks_calc_mult_shift}
use osjitter.Util.Khz.{SysFile, Run, out_of_bounds, returned, Pipe, get_tsc_khz}
use osjitter.Jitter.CpuSet
use osjitter.Jitter.CpuSet.{CpuSet, cpu_setsize, no_cpu_below}
use osjitter.Jitter.Args.{Args}
use osjitter.Jitter.Probe.{is_cpu_online, Memory, get_tid_off}

-- IEEE 754 doubles, as far as `set_params` needs them: integers up to 2 ^ 53 are exact, and so is a
-- product of two of them that is not larger.
pub record Double : Type 1 where
  pub D : Type 0
  pub of_ℕ : ℕ → D
  pub mul : D → D → D
  pub div : D → D → D
  pub trunc : D → ℕ
  pub mul-of_ℕ : (a b : ℕ) → a * b ≤ 2 ^ 53 → mul (of_ℕ a) (of_ℕ b) ≡ of_ℕ (a * b)
  pub trunc-of_ℕ : (a : ℕ) → a ≤ 2 ^ 53 → trunc (of_ℕ a) ≡ a

-- What the system answers.
pub record System : Type 0 where
  pub getpid : ℕ
  pub memory : Memory
  pub cpus : ℕ
  pub online : ℕ → SysFile
  pub khz_file : SysFile
  pub journal : Pipe
  pub dmesg : Pipe

-- `n` rounds of the loop over the CPUs, from `k` on
unfoldable pub online_loop : ℕ → ℕ → (ℕ → SysFile) → CpuSet → Option CpuSet
online_loop zero k files s = some s
online_loop (suc n) k files s = elim (is_cpu_online (files k)) [
  | none ↦ none
  | some b ↦ online_loop n (k + 1) files (if b then CpuSet.cpu_set k s else s)
]

-- The set of CPUs; `k <= args->cpus` makes one round more than there are CPUs.
unfoldable pub select_cpus : System → CpuSet → Option CpuSet
unfolding online_loop no_cpu_below
select_cpus sys s =
    if no_cpu_below cpu_setsize s then online_loop (sys.cpus + 1) 0 sys.online s else some s

-- what is left of a call of `get_tsc_khz`: `none` is a negative return, or a fault
abbrev pub accepted : Run → Option ℕ
accepted out_of_bounds = none
accepted (returned r found) = if ltb_ℤ r (pos 0) then none else some found

-- the frequency, from the arguments or from the system
unfoldable pub select_khz : System → ℕ → Option ℕ
select_khz sys khz =
    if khz == 0 then accepted (get_tsc_khz sys.khz_file sys.journal sys.dmesg) else some khz

module _ (F : Double) where
  open F use {of_ℕ, mul, div, trunc}

  -- `(uint32_t)(tsc_khz * 1000 / (10^9 / thresh_ns))`
  unfoldable pub ticks_of_ns : ℕ → ℕ → ℕ
  ticks_of_ns khz ns =
      u32 (trunc (div (mul (of_ℕ khz) (of_ℕ 1000)) (div (of_ℕ 1000000000) (of_ℕ ns))))

  -- `(uint64_t)(tsc_khz * 1000 * runtime_s)`
  unfoldable pub ticks_of_s : ℕ → ℕ → ℕ
  ticks_of_s khz s = u64 (trunc (mul (mul (of_ℕ khz) (of_ℕ 1000)) (of_ℕ s)))

  -- `none` is a failure, or the division by zero of a frequency 0.
  unfoldable pub set_params : System → Args → Option Args
  set_params sys a = elim (select_cpus sys a.cpu_set) [
    | none ↦ none
    | some set ↦ elim (select_khz sys a.tsc_khz) [
      | none ↦ none
      | some khz ↦ elim (clocks_calc_mult_shift khz 1000000 0) [
        | none ↦ none
        | some (mult, shift) ↦ some (record a {
          pid = sys.getpid;
          tid_off = get_tid_off sys.memory sys.getpid;
          cpus = sys.cpus;
          cpu_set = set;
          tsc_khz = khz;
          mult = mult;
          shift = shift;
          tsc_thresh = ticks_of_ns khz a.thresh_ns;
          tsc_runtime = ticks_of_s khz a.runtime_s;
        })
      ]
    ]
  ]
