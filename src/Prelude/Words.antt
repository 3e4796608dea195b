-- ===== src/Prelude/Words.antt =====
-- Machine words as native numbers. An `int` is its bit pattern, a number below 2 ^ 32.
use Prim.Native.Nat.{ℕ, ◌+◌, ◌-◌, ◌*◌, ◌%◌, ◌^◌}
use mathlib.Core.Bool.{Bool, ◌||◌}
use ai_optimized_kernel_and.Prelude.Tests.{ltb, leb, ◌==◌}

abbrev pub u32_mod : ℕ
u32_mod = 2 ^ 32

abbrev pub u64_mod : ℕ
u64_mod = 2 ^ 64

abbrev pub add32 : ℕ → ℕ → ℕ
add32 a b = (a + b) % u32_mod

abbrev pub sub32 : ℕ → ℕ → ℕ
sub32 a b = (a + u32_mod - b % u32_mod) % u32_mod

abbrev pub add64 : ℕ → ℕ → ℕ
add64 a b = (a + b) % u64_mod

abbrev pub sub64 : ℕ → ℕ → ℕ
sub64 a b = (a + u64_mod - b % u64_mod) % u64_mod

abbrev pub mul64 : ℕ → ℕ → ℕ
mul64 a b = a * b % u64_mod

-- `a < b` on `int`: the order of the patterns shifted by half the range.
abbrev pub slt32 : ℕ → ℕ → Bool
slt32 a b = ltb ((a + 2 ^ 31) % u32_mod) ((b + 2 ^ 31) % u32_mod)

-- `a <= 0` on `int`
abbrev pub nonpos32 : ℕ → Bool
nonpos32 a = a == 0 || leb (2 ^ 31) a

-- `(s64)(a - b) < 0`, the order of two u64 times that are less than 2 ^ 63 apart
abbrev pub before64 : ℕ → ℕ → Bool
before64 a b = leb (2 ^ 63) (sub64 a b)
