-- ===== src/Jitter/Start.antt =====
-- `main` of osjitter.c up to `create_workers`: the checks, the arguments, the parameters and the array
-- of workers. With `ready a` the protocol of `Jitter.Control` starts, for the CPUs of `a`.
use Prim.Native.Nat.{zero, suc}
use osjitter.Prelude.{ℕ, ◌≡◌, ◌⊎◌, Bool, true, List, Option, none, some, if◌then◌else◌}
use osjitter.Prelude.Int.{ℤ, pos, negsuc}
use osjitter.Jitter.Args.{Args, Parsed, refused, helped, accepted, parse_args}
use osjitter.Jitter.Args.Laws.{IsReady}
use osjitter.Jitter.Probe.{Lines, check_cpuinfo}
use osjitter.Jitter.Params.{Double, System, set_params}

pub data Startup : Type 0 where
  -- the exit status
  ends : ℕ → Startup
  ready : Args → Startup

module _ (F : Double) (sys : System) (memory : Bool) where
  -- `set_params` and `calloc`
  abbrev with_params : Option Args → Startup
  with_params none = ends 1
  with_params (some a) = if memory then ready a else ends 1

  unfoldable pub with_args : Parsed → Startup
  with_args refused = ends 1
  with_args helped = ends 0
  with_args (accepted a) = with_params (set_params F sys a)

  abbrev with_cpuinfo : ℤ → List (List ℕ) → Startup
  unfolding with_args
  with_cpuinfo (pos zero) argv = with_args (parse_args argv)
  with_cpuinfo (pos (suc r)) argv = ends 1
  with_cpuinfo (negsuc r) argv = ends 1

  unfoldable pub start_up : Lines → List (List ℕ) → Startup
  unfolding with_cpuinfo
  start_up info argv = with_cpuinfo (check_cpuinfo info) argv

  -- The program shows its help, or stops with an error, or has passed all checks: the features of the
  -- CPU, the arguments with their defaults, and the parameters.
  abbrev pub IsStarted : Lines → List (List ℕ) → Startup → Type 0
  IsStarted info argv (ends status) =
      ((status ≡ 0) × (check_cpuinfo info ≡ pos 0) × (parse_args argv ≡ helped)) ⊎ (status ≡ 1)
  IsStarted info argv (ready a) =
      (check_cpuinfo info ≡ pos 0)
      × (memory ≡ true)
      × ((b : Args) × (parse_args argv ≡ accepted b) × IsReady b × (set_params F sys b ≡ some a))
