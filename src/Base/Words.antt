-- ===== src/Base/Words.antt =====
-- Unsigned 64-bit arithmetic that saturates.
use Prim.Native.Nat.{ℕ, ◌+◌, ◌-◌, ◌*◌, ◌^◌, min}

abbrev pub u64_max : ℕ
u64_max = 2 ^ 64 - 1

abbrev pub u64_add : ℕ → ℕ → ℕ
u64_add a b = min (a + b) u64_max

abbrev pub u64_mul : ℕ → ℕ → ℕ
u64_mul a b = min (a * b) u64_max
