-- ===== src/Jitter/CpuSet.antt =====
-- `cpu_set_t` as osjitter.c uses it: 1024 bits. The library's macros ignore a larger index.
use Prim.Native.Nat.{zero, suc}
use osjitter.Prelude.{
  ℕ, ◌+◌, ◌-◌, ◌≤◌, ◌<◌, ◌≡◌, Bool, true, false, ◌&&◌, ◌||◌, arith, ltb, leb, ◌==◌, if◌then◌else◌,
}

abbrev pub CpuSet : Type 0
CpuSet = ℕ → Bool

abbrev pub cpu_setsize : ℕ
cpu_setsize = 1024

-- CPU_ZERO
abbrev pub cpu_zero : CpuSet
cpu_zero k = false

-- CPU_SET
abbrev pub cpu_set : ℕ → CpuSet → CpuSet
cpu_set c s k = (k == c && ltb c cpu_setsize) || s k

-- `!CPU_COUNT(s)`: no bit below `n` is set
unfoldable pub no_cpu_below : ℕ → CpuSet → Bool
no_cpu_below zero s = true
no_cpu_below (suc n) s = if s n then false else no_cpu_below n s

-- `n` rounds of `for (k = b; ...; ++k) CPU_SET(k, s)`
unfoldable pub cpu_set_range : ℕ → ℕ → CpuSet → CpuSet
cpu_set_range zero b s = s
cpu_set_range (suc n) b s = cpu_set_range n (b + 1) (cpu_set b s)

-- The loop adds its numbers and no other.
pub cpu_set_range_lem :
    (n b : ℕ) (s : CpuSet) (k : ℕ)
    → b + n ≤ cpu_setsize
    → cpu_set_range n b s k ≡ ((leb b k && ltb k (b + n)) || s k)
unfolding cpu_set_range
cpu_set_range_lem zero b s k h = ground arith
cpu_set_range_lem (suc n) b s k h = ground (arith, cpu_set_range_lem n (b + 1) (cpu_set b s) k)

-- The range of `--cpu b-e`.
pub cpu_set_range-between :
    (lo hi : ℕ) (s : CpuSet) (k : ℕ)
    → lo < cpu_setsize
    → hi < cpu_setsize
    → cpu_set_range (hi + 1 - lo) lo s k ≡ ((leb lo k && leb k hi) || s k)
cpu_set_range-between lo hi s k p q =
    ground (arith, cpu_set_range_lem (hi + 1 - lo) lo s k (omega arith))
