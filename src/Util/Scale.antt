-- ===== src/Util/Scale.antt =====
-- Ticks to nanoseconds: `mul_u64_u32_shr` of util.h and `clocks_calc_mult_shift` of util.c.
pub mod Range
pub mod Best
pub mod Error
use Prim.Native.Nat.{zero, suc}
use osjitter.Prelude.{
  ℕ, ◌+◌, ◌-◌, ◌*◌, ◌/◌, ◌^◌, ◌≡◌, refl, Option, none, some, ltb, ◌==◌, if◌then◌else◌,
}
use osjitter.Prelude.Words.{u32, u64, sub32}

-- The product is taken in 128 bits.
unfoldable pub mul_u64_u32_shr : ℕ → ℕ → ℕ → ℕ
mul_u64_u32_shr cyc mult shift = u64 (cyc * mult / 2 ^ shift)

-- `while (tmp) { tmp >>= 1; sftacc--; }` on fuel; `none` means that the fuel ran out.
unfoldable pub acc_loop : ℕ → ℕ → ℕ → Option ℕ
acc_loop zero tmp sftacc = none
acc_loop (suc f) tmp sftacc =
    let rest = acc_loop f (tmp / 2) (sub32 sftacc 1) in if tmp == 0 then some sftacc else rest

-- `tmp` in the body of the `for` loop, at the shift `sft`
unfoldable pub scaled : ℕ → ℕ → ℕ → ℕ
scaled from to sft = u64 (u64 (to * 2 ^ sft) + from / 2) / from

-- The `for` loop from `sft` downwards: the last `tmp` and the shift at which the loop was left.
unfoldable pub shift_loop : ℕ → ℕ → ℕ → ℕ → ℕ → ℕ × ℕ
shift_loop zero from to sftacc tmp = (tmp, 0)
shift_loop (suc s) from to sftacc tmp =
    let t = scaled from to (suc s) in
    let rest = shift_loop s from to sftacc t in if t / 2 ^ sftacc == 0 then (t, suc s) else rest

-- `*mult` and `*shift`. A frequency `from` of 0 is a division by zero, which is `none`.
unfoldable pub clocks_calc_mult_shift : ℕ → ℕ → ℕ → Option (ℕ × ℕ)
clocks_calc_mult_shift from to maxsec =
    if from == 0 then none else elim (acc_loop 33 (u64 (maxsec * from) / 2 ^ 32) 32) [
      | none ↦ none
      | some sftacc ↦ let (tmp, sft) = shift_loop 32 from to sftacc 0 in some (u32 tmp, sft)
    ]

-- A counter at 2.2 GHz and at 1 GHz.
clocks_calc_mult_shift_runs :
    (clocks_calc_mult_shift 2200000 1000000 0 ≡ some (1952257862, 32))
    × (clocks_calc_mult_shift 1000000 1000000 0 ≡ some (2147483648, 31))
    × (clocks_calc_mult_shift 2200000 1000000 6000000 ≡ some (953251, 21))
    × (mul_u64_u32_shr 2200000 1952257862 32 ≡ 1000000)
unfolding mul_u64_u32_shr acc_loop scaled shift_loop clocks_calc_mult_shift
clocks_calc_mult_shift_runs = (refl, refl, refl, refl)
