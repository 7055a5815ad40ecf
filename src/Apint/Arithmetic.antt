-- ===== src/Apint/Arithmetic.antt =====
-- The arithmetic of the crate `apint` that src/cwe_checker_lib/src uses, and what the crate documents
-- of it: a bitvector is a number below 2 ^ width.
use fkie_cad_cwe_checker.Prelude.{
  ℕ, ◌+◌, ◌-◌, ◌*◌, ◌/◌, ◌%◌, ◌^◌, ◌<◌, ◌≤◌, ◌≡◌, none, Bool, true, false, Option, some, arith, leb,
  ltb, ◌==◌,
}
use Prim.Native.Nat.{bit_and, bit_or, bit_xor}
use fkie_cad_cwe_checker.Apint.{ApInt}

-- An operation on two bitvectors fails, with `none`, when their widths differ; the operators `+`, `-`,
-- `*`, `&`, `|` and `^` are the same operations and panic then. The divisions also fail at a zero
-- divisor. Widths, shift amounts and target widths are in bits.
pub record Arithmetic (api : ApInt) : Type 0 where
  pub zero_of : ℕ → api.Bitvector
  pub one_of : ℕ → api.Bitvector
  pub from_u8 : ℕ → api.Bitvector
  pub from_u64 : ℕ → api.Bitvector
  pub is_zero : api.Bitvector → Bool
  pub is_one : api.Bitvector → Bool
  pub equal : api.Bitvector → api.Bitvector → Bool
  pub try_to_u64 : api.Bitvector → Option ℕ
  pub sign_bit : api.Bitvector → Bool
  pub is_positive : api.Bitvector → Bool
  pub count_ones : api.Bitvector → ℕ
  pub leading_zeros : api.Bitvector → ℕ
  pub into_bitnot : api.Bitvector → api.Bitvector
  pub neg : api.Bitvector → api.Bitvector
  pub checked_add : api.Bitvector → api.Bitvector → Option api.Bitvector
  pub checked_sub : api.Bitvector → api.Bitvector → Option api.Bitvector
  pub checked_mul : api.Bitvector → api.Bitvector → Option api.Bitvector
  pub checked_udiv : api.Bitvector → api.Bitvector → Option api.Bitvector
  pub checked_sdiv : api.Bitvector → api.Bitvector → Option api.Bitvector
  pub checked_urem : api.Bitvector → api.Bitvector → Option api.Bitvector
  pub checked_srem : api.Bitvector → api.Bitvector → Option api.Bitvector
  pub checked_bitand : api.Bitvector → api.Bitvector → Option api.Bitvector
  pub checked_bitor : api.Bitvector → api.Bitvector → Option api.Bitvector
  pub checked_bitxor : api.Bitvector → api.Bitvector → Option api.Bitvector
  pub checked_ult : api.Bitvector → api.Bitvector → Option Bool
  pub checked_ule : api.Bitvector → api.Bitvector → Option Bool
  pub checked_slt : api.Bitvector → api.Bitvector → Option Bool
  pub checked_sle : api.Bitvector → api.Bitvector → Option Bool
  pub checked_shl : ℕ → api.Bitvector → Option api.Bitvector
  pub checked_lshr : ℕ → api.Bitvector → Option api.Bitvector
  pub checked_ashr : ℕ → api.Bitvector → Option api.Bitvector
  pub zero_extend : ℕ → api.Bitvector → Option api.Bitvector
  pub sign_extend : ℕ → api.Bitvector → Option api.Bitvector
  pub truncate : ℕ → api.Bitvector → Option api.Bitvector

-- The sign of a number below `m`, in two's complement.
unfoldable pub is_negative : ℕ → ℕ → Bool
is_negative m n = leb m (2 * n)

-- Numbers below `m` in the order of the integers that they stand for in two's complement: the
-- nonnegative ones are moved above the negative ones.
unfoldable pub signed_order : ℕ → ℕ → ℕ
unfolding is_negative
signed_order m n = elim (is_negative m n) [ true ↦ n | false ↦ n + m ]

-- The complement of a number below `m`.
abbrev pub complement : ℕ → ℕ → ℕ
complement m n = (m - n) % m

-- More digits of the same sign.
unfoldable pub extend_sign : ℕ → ℕ → ℕ → ℕ
unfolding is_negative
extend_sign m m' n = elim (is_negative m n) [ true ↦ n + m' - m | false ↦ n ]

pub extend_sign-lt : (m m' n : ℕ) → n < m → m ≤ m' → extend_sign m m' n < m'
unfolding extend_sign is_negative
extend_sign-lt m m' n h k = ground arith

-- The number of a bitvector.
module _ (api : ApInt) (value : api.Bitvector → ℕ) where
  -- Holds of `b` when it has `w` bits and is the number `n`.
  abbrev pub Stands : api.Bitvector → ℕ → ℕ → Type 0
  Stands b w n = (api.width b ≡ w) × (value b ≡ n)

  -- The operation succeeds with the number `n` in `w` bits.
  abbrev pub Gives : Option api.Bitvector → ℕ → ℕ → Type 0
  Gives result w n = (b : api.Bitvector) × (result ≡ some b) × Stands b w n

pub record IsArithmetic (api : ApInt) (a : Arithmetic api) (value : api.Bitvector → ℕ)
    : Type 0 where
  pub value-lt : (b : api.Bitvector) → value b < 2 ^ api.width b
  pub zero_of-Stands : (w : ℕ) → 0 < w → Stands api value (a.zero_of w) w 0
  pub one_of-Stands : (w : ℕ) → 0 < w → Stands api value (a.one_of w) w 1
  pub from_u8-Stands : (n : ℕ) → n < 2 ^ 8 → Stands api value (a.from_u8 n) 8 n
  pub from_u64-Stands : (n : ℕ) → n < 2 ^ 64 → Stands api value (a.from_u64 n) 64 n
  pub is_zero_iff : (b : api.Bitvector) → a.is_zero b ≡ (value b == 0)
  pub is_one_iff : (b : api.Bitvector) → a.is_one b ≡ (value b == 1)
  pub equal_sound : (b c : api.Bitvector) → a.equal b c ≡ true → b ≡ c
  pub equal_value :
      (b c : api.Bitvector) → api.width b ≡ api.width c → a.equal b c ≡ (value b == value c)
  pub try_to_u64_value : (b : api.Bitvector) → value b < 2 ^ 64 → a.try_to_u64 b ≡ some (value b)
  pub try_to_u64_none : (b : api.Bitvector) → 2 ^ 64 ≤ value b → a.try_to_u64 b ≡ none
  pub sign_bit_value : (b : api.Bitvector) → a.sign_bit b ≡ is_negative (2 ^ api.width b) (value b)
  pub is_positive_true :
      (b : api.Bitvector)
      → 0 < value b
      → is_negative (2 ^ api.width b) (value b) ≡ false
      → a.is_positive b ≡ true
  pub is_positive_false :
      (b : api.Bitvector) → is_negative (2 ^ api.width b) (value b) ≡ true → a.is_positive b ≡ false
  pub into_bitnot-Stands :
      (b : api.Bitvector)
      → Stands api value (a.into_bitnot b) (api.width b) (2 ^ api.width b - 1 - value b)
  pub neg-Stands :
      (b : api.Bitvector)
      → Stands api value (a.neg b) (api.width b) (complement (2 ^ api.width b) (value b))
  pub checked_add-Gives :
      (b c : api.Bitvector)
      → api.width b ≡ api.width c
      → Gives api value (a.checked_add b c) (api.width b) ((value b + value c) % 2 ^ api.width b)
  pub checked_sub-Gives :
      (b c : api.Bitvector)
      → api.width b ≡ api.width c
      → Gives api value
          (a.checked_sub b c)
          (api.width b)
          ((value b + (2 ^ api.width b - value c)) % 2 ^ api.width b)
  pub checked_bitand-Gives :
      (b c : api.Bitvector)
      → api.width b ≡ api.width c
      → Gives api value (a.checked_bitand b c) (api.width b) (bit_and (value b) (value c))
  pub checked_bitor-Gives :
      (b c : api.Bitvector)
      → api.width b ≡ api.width c
      → Gives api value (a.checked_bitor b c) (api.width b) (bit_or (value b) (value c))
  pub checked_bitxor-Gives :
      (b c : api.Bitvector)
      → api.width b ≡ api.width c
      → Gives api value (a.checked_bitxor b c) (api.width b) (bit_xor (value b) (value c))
  pub checked_ult_value :
      (b c : api.Bitvector)
      → api.width b ≡ api.width c
      → a.checked_ult b c ≡ some (ltb (value b) (value c))
  pub checked_ule_value :
      (b c : api.Bitvector)
      → api.width b ≡ api.width c
      → a.checked_ule b c ≡ some (leb (value b) (value c))
  pub checked_slt_value :
      (b c : api.Bitvector)
      → api.width b ≡ api.width c
      → a.checked_slt b c
        ≡ some (
            ltb
              (signed_order (2 ^ api.width b) (value b))
              (signed_order (2 ^ api.width b) (value c)))
  pub checked_sle_value :
      (b c : api.Bitvector)
      → api.width b ≡ api.width c
      → a.checked_sle b c
        ≡ some (
            leb
              (signed_order (2 ^ api.width b) (value b))
              (signed_order (2 ^ api.width b) (value c)))
  pub checked_shl-Gives :
      (k : ℕ) (b : api.Bitvector)
      → k < api.width b
      → Gives api value (a.checked_shl k b) (api.width b) (value b * 2 ^ k % 2 ^ api.width b)
  pub checked_lshr-Gives :
      (k : ℕ) (b : api.Bitvector)
      → k < api.width b
      → Gives api value (a.checked_lshr k b) (api.width b) (value b / 2 ^ k)
  pub zero_extend-Gives :
      (w : ℕ) (b : api.Bitvector)
      → api.width b ≤ w
      → Gives api value (a.zero_extend w b) w (value b)
  pub sign_extend-Gives :
      (w : ℕ) (b : api.Bitvector)
      → api.width b ≤ w
      → Gives api value (a.sign_extend w b) w (extend_sign (2 ^ api.width b) (2 ^ w) (value b))
  pub truncate-Gives :
      (w : ℕ) (b : api.Bitvector)
      → 0 < w
      → w ≤ api.width b
      → Gives api value (a.truncate w b) w (value b % 2 ^ w)
