-- ===== src/Apint.antt =====
-- What the code uses of the crate `apint`, whose `ApInt` is its type of bitvectors.
pub mod Arithmetic
pub mod Signed
pub mod Words
use fkie_cad_cwe_checker.Prelude.{ℕ, Option, ◌+◌, ◌/◌}

-- `width` is in bits. `try_to_i64` is the signed value, if an `i64` can hold it.
pub record ApInt : Type 1 where
  pub Bitvector : Type 0
  pub width : Bitvector → ℕ
  pub try_to_i64 : Bitvector → Option ℕ

-- `ByteSize::from(BitWidth)`: rounds up to whole bytes.
unfoldable pub byte_size_from : ℕ → ℕ
byte_size_from bit_width = (bit_width + 7) / 8
