-- ===== src/Prelude/Words.antt =====
-- The widths of the code's integers. Their arithmetic wraps, as in a release build.
use Prim.Native.Nat.{ℕ, ◌+◌, ◌^◌, ◌%◌}

abbrev pub u32_mod : ℕ
u32_mod = 2 ^ 32

abbrev pub u64_mod : ℕ
u64_mod = 2 ^ 64

abbrev pub u32_max : ℕ
u32_max = 4294967295

abbrev pub add_u32 : ℕ → ℕ → ℕ
add_u32 a b = (a + b) % u32_mod

-- Also `usize` on the 64-bit targets.
abbrev pub add_u64 : ℕ → ℕ → ℕ
add_u64 a b = (a + b) % u64_mod
