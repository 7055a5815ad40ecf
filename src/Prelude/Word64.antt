-- ===== src/Prelude/Word64.antt =====
-- 64-bit integers. A `u64` is its number. An `i64` is held as its value plus 2 ^ 63, so that the
-- order of the numbers 0, ..., 2 ^ 64 - 1 is the order of the integers; arithmetic wraps around, as
-- in a release build.
use Prim.Native.Nat.{ℕ, ◌+◌, ◌^◌, ◌%◌, ◌<◌}
use mathlib.Core.Path.{◌≡◌}
use native.Mathlib.Omega.{arith}

-- `i64::MIN` and 0.
abbrev pub i64_min : ℕ
i64_min = 0

abbrev pub i64_zero : ℕ
i64_zero = 2 ^ 63

-- `u as i64`
unfoldable pub as_i64 : ℕ → ℕ
as_i64 u = (u + 2 ^ 63) % 2 ^ 64

-- `a + b`
unfoldable pub i64_add : ℕ → ℕ → ℕ
i64_add a b = (a + b + 2 ^ 63) % 2 ^ 64

-- The address of the byte after an object of `size` bytes.
pub i64_add-size :
    (p size : ℕ) → size < 2 ^ 63 → p + size < 2 ^ 64 → i64_add p (as_i64 size) ≡ p + size
unfolding i64_add as_i64
i64_add-size p size h k = omega arith

-- Past the last address the sum wraps around to one below the start.
pub i64_add_wraps :
    (p size : ℕ)
    → size < 2 ^ 63
    → p < 2 ^ 64
    → 2 ^ 64 < p + size + 1
    → i64_add p (as_i64 size) + 2 ^ 64 ≡ p + size
unfolding i64_add as_i64
i64_add_wraps p size h k l = omega arith

pub as_i64-lt : (size : ℕ) → size < 2 ^ 63 → as_i64 size ≡ size + 2 ^ 63
unfolding as_i64
as_i64-lt size h = omega arith
