-- ===== src/Pingpong/Worker.antt =====
-- What the threads of pingpong.c share: `struct Worker`, `spin_main_finalize`, and the variables of
-- the loop over the iterations with the branches that every method has. `_mm_pause` changes no
-- variable.
pub mod Room
pub mod Finalize
use osjitter.Prelude.{
  ℕ, ◌+◌, ◌-◌, ◌*◌, ◌/◌, ◌%◌, ◌≡◌, refl, Bool, true, false, List, [], ◌∷◌, ◌++◌, Option, none, some,
  length, set, take, drop, replicate, arith, ltb, ◌==◌, if◌then◌else◌,
}
use osjitter.Prelude.Words.{u32, u64_mod, sub64}
use osjitter.Util.Sort.{cmp_u32, qsort}

-- `struct Worker`, without the thread's handle
pub record Worker : Type 0 where
  pub init : ℕ
  pub n : ℕ
  pub k : ℕ
  pub p : ℕ
  pub raw_ds : List ℕ
  pub ds : List ℕ
  pub ds_size : ℕ

pub data Finalized : Type 0 where
  -- `j <= x->n/2` does not hold
  assertion_fails : Finalized
  -- `malloc` fails, and the thread returns NULL
  no_memory : Finalized
  done : Worker → Finalized

unfoldable pub spin_main_finalize : Bool → Worker → List ℕ → ℕ → Finalized
spin_main_finalize memory x ds j =
    if ltb (x.n / 2) j
    then assertion_fails
    else if memory
    then (done
        (record x { raw_ds = take j ds; ds = qsort cmp_u32 (take j ds) ++ drop j ds; ds_size = j }))
    else no_memory

-- the local variables of a thread
pub record Locals : Type 0 where
  pub i : ℕ
  pub j : ℕ
  pub tsc : ℕ
  pub ds : List ℕ

-- before the loop, behind `calloc(w.n/2, ...)`
abbrev pub start : ℕ → Locals
start n = record { i = 0; j = 0; tsc = 1; ds = replicate (n / 2) 0 }

-- `i % 2 == w.init`
abbrev pub is_sender : ℕ → ℕ → Bool
is_sender init i = i % 2 == init

-- `++i`, for an i below n
abbrev pub next : Locals → Locals
next l = record l { i = l.i + 1 }

-- `ds[j++] = now - new_tsc; tsc = new_tsc`
abbrev pub taken : ℕ → ℕ → Locals → Locals
taken now new_tsc l = record l {
  ds = set l.ds l.j (u32 (sub64 now new_tsc));
  j = l.j + 1;
  tsc = new_tsc;
}

-- The same, or `none` for a store behind the end of the array, which has n / 2 elements.
unfoldable pub received : ℕ → ℕ → ℕ → Locals → Option Locals
received n now new_tsc l = if ltb l.j (n / 2) then some (taken now new_tsc l) else none

-- How the kernel or the processor answers a step.
pub data Answer : Type 0 where
  -- a wait lasts until a wake
  usual : Answer
  -- the weak exchange fails on an unlocked word too, and a wait ends without a wake
  spurious : Answer
  -- a system call returns -1, and not for EAGAIN
  error : Answer

abbrev pub is_error : Answer → Bool
is_error error = true
is_error _ = false

abbrev pub is_spurious : Answer → Bool
is_spurious spurious = true
is_spurious _ = false
