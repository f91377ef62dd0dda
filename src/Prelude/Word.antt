-- ===== src/Prelude/Word.antt =====
-- Bounds of the machine integers, and Rust's saturating operations on `u64`.
use Prim.Native.Nat.{ℕ, ◌+◌, ◌*◌, min}

abbrev pub u32_max : ℕ
u32_max = 4294967295

abbrev pub u64_max : ℕ
u64_max = 18446744073709551615

abbrev pub i64_max : ℕ
i64_max = 9223372036854775807

-- `a.saturating_add(b)`; `saturating_sub` is the truncated `-` of ℕ.
abbrev pub saturating_add : ℕ → ℕ → ℕ
saturating_add a b = min (a + b) u64_max

abbrev pub saturating_mul : ℕ → ℕ → ℕ
saturating_mul a b = min (a * b) u64_max
