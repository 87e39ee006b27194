-- ===== src/Pingpong/Control.antt =====
-- `spin_pingpong` and `main` of pingpong.c, the control thread. What the library calls return, and what
-- the threads do to their `Worker`, are arguments.
pub mod Laws
pub mod Whole
pub mod Main
use Prim.Native.Nat.{zero, suc}
use osjitter.Prelude.{
  ℕ, ◌+◌, ◌-◌, ◌≡◌, refl, Bool, true, false, not, ◌&&◌, List, [], ◌∷◌, Option, none, some, ltb,
  ◌==◌, if◌then◌else◌,
}
use osjitter.Prelude.Int.{ℤ, pos, negsuc, ltb_ℤ}
use osjitter.Util.Khz
use osjitter.Util.Khz.{Run}
use osjitter.Util.Scale.{clocks_calc_mult_shift}
use osjitter.Jitter.CpuSet.{CpuSet, cpu_zero, cpu_set}
use osjitter.Pingpong.Args.{
  Method, pipe, semaphore, Args, Parsed, refused, helped, exited, accepted,
}
use osjitter.Pingpong.Worker.{Worker}
use osjitter.Pingpong.Results.{Report, pp_results, print_json}

-- Whether the calls that create a thread succeed: `pthread_attr_init`, `pthread_attr_setaffinity_np`,
-- `pipe` or `sem_init`, `pthread_create`, `pthread_attr_destroy`.
pub record Creation : Type 0 where
  pub inits : Bool
  pub pins : Bool
  pub prepares : Bool
  pub creates : Bool
  pub destroys : Bool

-- `pthread_join`, and the pointer that the thread returns: the worker as it has left it, or null
pub record Joining : Type 0 where
  pub joins : Bool
  pub result : Option Worker

-- A thread with its function, by its method, the CPUs that it is bound to, and its argument.
pub record Launched : Type 0 where
  pub routine : Method
  pub affinity : Option CpuSet
  pub worker : Worker

-- the threads created, and whether the loop has come to its end
pub record Launching : Type 0 where
  pub threads : List Launched
  pub complete : Bool

-- the methods that need a call of their own before `pthread_create`
abbrev pub has_setup : Method → Bool
has_setup pipe = true
has_setup semaphore = true
has_setup _ = false

module _ (args : Args) where
  -- `{0}`, with the fields that the loop sets
  abbrev pub worker_of : ℕ → Worker
  worker_of i = record {
    init = i;
    n = args.n;
    k = args.k;
    p = args.p;
    raw_ds = [];
    ds = [];
    ds_size = 0;
  }

  abbrev pub pin_of : ℕ → ℕ
  pin_of i = if i == 0 then args.pin0 else args.pin1

  -- `CPU_SET(args->pin[i] - 1, &cpus)`
  abbrev pub affinity_of : ℕ → Option CpuSet
  affinity_of i = if pin_of i == 0 then none else some (cpu_set (pin_of i - 1) cpu_zero)

  abbrev pub launched_of : ℕ → Launched
  launched_of i = record { routine = args.method; affinity = affinity_of i; worker = worker_of i }

  -- whether the calls up to `pthread_create` succeed, as far as they are made
  unfoldable pub can_launch : ℕ → Creation → Bool
  can_launch i c =
      c.inits
      && (if pin_of i == 0 then true else c.pins)
      && (if has_setup args.method then c.prepares else true)
      && c.creates

  -- `n` rounds of the first loop from `i` on
  unfoldable pub launch_loop : (ℕ → Creation) → ℕ → ℕ → Launching
  unfolding can_launch
  launch_loop cs zero i = record { threads = []; complete = true }
  launch_loop cs (suc n) i =
      let rest = launch_loop cs n (i + 1) in
      if can_launch i (cs i)
      then if (cs i).destroys
        then (record { threads = launched_of i ∷ rest.threads; complete = rest.complete })
        else (record { threads = launched_of i ∷ []; complete = false })
      else (record { threads = []; complete = false })

-- the second loop: a join fails, a thread has returned a null pointer, or both their workers
pub data Joined : Type 0 where
  join_fails : Joined
  error_in_thread : Joined
  both : Worker → Worker → Joined

abbrev pub with_workers : Option Worker → Option Worker → Joined
with_workers (some w0) (some w1) = both w0 w1
with_workers _ _ = error_in_thread

unfoldable pub join_both : Joining → Joining → Joined
join_both j0 j1 =
    if not j0.joins
    then join_fails
    else if not j1.joins
    then join_fails
    else with_workers j0.result j1.result

pub data Output : Type 0 where
  json_text : Option (List (List ℕ)) → Output
  table : Report → Output

-- The return value and the output, the threads created, and whether `start_work` has been set.
pub record Played : Type 0 where
  pub status : ℕ
  pub output : Option Output
  pub threads : List Launched
  pub start_work : Bool

abbrev pub workers : Worker → Worker → ℕ → Worker
workers w0 w1 zero = w0
workers w0 w1 (suc i) = w1

abbrev pub show_output : Args → (ℕ → Bool) → Worker → Worker → Output
show_output args memory w0 w1 =
    if args.json
    then json_text (print_json args (workers w0 w1))
    else table (pp_results args memory (workers w0 w1))

-- what follows the store to `start_work`
unfoldable pub finish : Args → (ℕ → Bool) → List Launched → Joined → Played
finish args memory ts (both w0 w1) = record {
  status = 0;
  output = some (show_output args memory w0 w1);
  threads = ts;
  start_work = true;
}
finish args memory ts _ = record { status = 1; output = none; threads = ts; start_work = true }

unfoldable pub spin_pingpong : Args → (ℕ → Creation) → Joining → Joining → (ℕ → Bool) → Played
unfolding launch_loop join_both finish
spin_pingpong args cs j0 j1 memory =
    let l = launch_loop args cs 2 0 in
    if l.complete
    then finish args memory l.threads (join_both j0 j1)
    else (record { status = 1; output = none; threads = l.threads; start_work = false })

-- How the program ends: by a fault, with a status before any thread is created, or with that of
-- `spin_pingpong`.
pub data Ended : Type 0 where
  crashed : Ended
  stopped : ℕ → Ended
  played : Args → Played → Ended

-- `clocks_calc_mult_shift` and `spin_pingpong`, for a frequency; `none` is a division by zero.
unfoldable pub with_khz : Args → (Args → Played) → ℕ → Ended
with_khz args play khz = elim (clocks_calc_mult_shift khz 1000000 0) [
  | none ↦ crashed
  | some (mult, shift) ↦
      let args' = record args { tsc_khz = khz; mult = mult; shift = shift } in
      played args' (play args')
]

-- the answer of `get_tsc_khz`
abbrev pub on_khz : Args → (Args → Played) → Run → Ended
on_khz args play Khz.out_of_bounds = crashed
on_khz args play (Khz.returned r khz) =
    if ltb_ℤ r (pos 0) then stopped 1 else with_khz args play khz

unfoldable pub main : Parsed → Run → (Args → Played) → Ended
main refused khz play = stopped 1
main helped khz play = stopped 0
main exited khz play = stopped 1
main (accepted args) khz play =
    if args.tsc_khz == 0 then on_khz args play khz else with_khz args play args.tsc_khz
