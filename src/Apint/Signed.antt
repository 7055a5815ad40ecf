-- ===== src/Apint/Signed.antt =====
-- The bounds of a width and the conversions to signed integers that the crate apint has, and the
-- operation of the crate gcd. An `i128` is held as its value plus 2 ^ 127.
use fkie_cad_cwe_checker.Apint.Arithmetic.{signed_order, Stands}
use fkie_cad_cwe_checker.Prelude.{ℕ, ◌-◌, ◌*◌, ◌/◌, ◌^◌, ◌<◌, ◌≡◌, Option, some, ◌≤◌, ◌+◌}
use fkie_cad_cwe_checker.Apint.{ApInt}

pub record Bounds (api : ApInt) : Type 0 where
  pub signed_min_value : ℕ → api.Bitvector
  pub signed_max_value : ℕ → api.Bitvector
  pub unsigned_max_value : ℕ → api.Bitvector
  pub try_to_i128 : api.Bitvector → Option ℕ

pub record IsBounds (api : ApInt) (bounds : Bounds api) (value : api.Bitvector → ℕ) : Type 0 where
  pub signed_min_value-Stands :
      (w : ℕ) → 0 < w → Stands api value (bounds.signed_min_value w) w (2 ^ w / 2)
  pub signed_max_value-Stands :
      (w : ℕ) → 0 < w → Stands api value (bounds.signed_max_value w) w (2 ^ w / 2 - 1)
  pub unsigned_max_value-Stands :
      (w : ℕ) → 0 < w → Stands api value (bounds.unsigned_max_value w) w (2 ^ w - 1)
  -- A conversion that succeeds gives the integer.
  pub try_to_i64_sound :
      (b : api.Bitvector) (n : ℕ)
      → api.try_to_i64 b ≡ some n
      → (n < 2 ^ 64) × (n + 2 ^ api.width b ≡ signed_order (2 ^ api.width b) (value b) + 2 ^ 63)
  pub try_to_i128_total :
      (b : api.Bitvector)
      → api.width b ≤ 64
      → (n : ℕ) × (bounds.try_to_i128 b ≡ some n)
        × (n + 2 ^ api.width b ≡ signed_order (2 ^ api.width b) (value b) + 2 ^ 127)

-- `Gcd::gcd`: the result divides both numbers.
pub record Gcd : Type 0 where
  pub gcd : ℕ → ℕ → ℕ
  pub divides_left : (m n : ℕ) → (k : ℕ) × (m ≡ k * gcd m n)
  pub divides_right : (m n : ℕ) → (k : ℕ) × (n ≡ k * gcd m n)
