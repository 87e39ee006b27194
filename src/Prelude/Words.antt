-- ===== src/Prelude/Words.antt =====
-- Machine words of the C sources as native numbers: the moduli of `uint32_t` and `uint64_t`, casts
-- and wrapping subtraction.
use Prim.Native.Nat.{ℕ, ◌+◌, ◌-◌, ◌%◌}

abbrev pub u32_mod : ℕ
u32_mod = 0x1_0000_0000

abbrev pub u64_mod : ℕ
u64_mod = 0x1_0000_0000_0000_0000

-- the cast to `uint32_t`
abbrev pub u32 : ℕ → ℕ
u32 n = n % u32_mod

-- the cast to `uint64_t`
abbrev pub u64 : ℕ → ℕ
u64 n = n % u64_mod

-- `a - b` of two words below the modulus
abbrev pub sub32 : ℕ → ℕ → ℕ
sub32 a b = (a + u32_mod - b) % u32_mod

abbrev pub sub64 : ℕ → ℕ → ℕ
sub64 a b = (a + u64_mod - b) % u64_mod
