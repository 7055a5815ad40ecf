-- ===== src/Apint/Words.antt =====
-- An instance of the crate's interface: a bitvector is the list of its binary digits, lowest first.
pub mod Laws
pub mod Limits
use fkie_cad_cwe_checker.Prelude.{
  ℕ, zero, suc, ◌+◌, ◌-◌, ◌*◌, ◌/◌, ◌%◌, ◌^◌, ◌<◌, ◌≤◌, ◌≡◌, refl, ap, sym, ◌∙◌, Bool, true, false,
  ◌&&◌, Option, none, some, length, List, [], ◌∷◌, leb, ltb, ◌==◌, ==_iff, if◌then◌else◌, arith,
}
use Prim.Native.Nat.{bit_and, bit_or, bit_xor}
use fkie_cad_cwe_checker.Prelude.Bits.{bit_and-lt, bit_or-lt, bit_xor-lt}
use fkie_cad_cwe_checker.Apint.{ApInt}
use fkie_cad_cwe_checker.Apint.Arithmetic.{
  Arithmetic, IsArithmetic, is_negative, signed_order, complement, extend_sign, Stands, Gives,
}

abbrev pub digit : Bool → ℕ
digit true = 1
digit false = 0

unfoldable pub number : List Bool → ℕ
number [] = 0
number (b ∷ bs) = digit b + 2 * number bs

unfoldable pub word : ℕ → ℕ → List Bool
word zero n = []
word (suc w) n = (n % 2 == 1) ∷ word w (n / 2)

unfoldable pub same_word : List Bool → List Bool → Bool
same_word [] [] = true
same_word [] (c ∷ cs) = false
same_word (b ∷ bs) [] = false
same_word (b ∷ bs) (c ∷ cs) = (digit b == digit c) && same_word bs cs

abbrev pub words : ApInt
words = record {
  Bitvector = List Bool;
  width = length;
  try_to_i64 = λ b.
      if leb (length b) 64
      then some ((extend_sign (2 ^ length b) (2 ^ 64) (number b) + 2 ^ 63) % 2 ^ 64)
      else none;
}

unfoldable pub when : Bool → List Bool → Option (List Bool)
when c b = if c then some b else none

-- An operation on two words of the same width.
unfoldable pub on_numbers : (ℕ → ℕ → ℕ → ℕ) → List Bool → List Bool → Option (List Bool)
unfolding when
on_numbers f b c =
    when (length b == length c) (word (length b) (f (2 ^ length b) (number b) (number c)))

unfoldable pub compare_numbers : (ℕ → ℕ → ℕ → Bool) → List Bool → List Bool → Option Bool
compare_numbers f b c =
    if length b == length c then some (f (2 ^ length b) (number b) (number c)) else none

unfoldable pub ones : List Bool → ℕ
ones [] = 0
ones (b ∷ bs) = digit b + ones bs

unfoldable pub leading : List Bool → ℕ
leading [] = 0
leading (b ∷ bs) = let n = leading bs in if n == length bs then n + 1 - digit b else n

abbrev magnitude : ℕ → ℕ → ℕ
magnitude m n = if is_negative m n then m - n else n

-- The division rounds to zero, and the remainder has the sign of the dividend.
abbrev signed_quotient : ℕ → ℕ → ℕ → ℕ
signed_quotient m x y =
    let quotient = magnitude m x / magnitude m y in
    if digit (is_negative m x) + digit (is_negative m y) == 1
    then complement m quotient
    else quotient

abbrev signed_remainder : ℕ → ℕ → ℕ → ℕ
signed_remainder m x y =
    let remainder = magnitude m x % magnitude m y in
    if is_negative m x then complement m remainder else remainder

abbrev pub word_arithmetic : Arithmetic words
word_arithmetic = record {
  zero_of = λ w. word w 0;
  one_of = λ w. word w 1;
  from_u8 = word 8;
  from_u64 = word 64;
  is_zero = λ b. number b == 0;
  is_one = λ b. number b == 1;
  equal = same_word;
  try_to_u64 = λ b. if ltb (number b) (2 ^ 64) then some (number b) else none;
  sign_bit = λ b. is_negative (2 ^ length b) (number b);
  is_positive = λ b. if is_negative (2 ^ length b) (number b) then false else true;
  count_ones = ones;
  leading_zeros = leading;
  into_bitnot = λ b. word (length b) (2 ^ length b - 1 - number b);
  neg = λ b. word (length b) (complement (2 ^ length b) (number b));
  checked_add = on_numbers (λ m x y. (x + y) % m);
  checked_sub = on_numbers (λ m x y. (x + (m - y)) % m);
  checked_mul = on_numbers (λ m x y. x * y % m);
  checked_udiv = λ b c. if number c == 0 then none else on_numbers (λ m x y. x / y) b c;
  checked_sdiv = λ b c. if number c == 0 then none else on_numbers signed_quotient b c;
  checked_urem = λ b c. if number c == 0 then none else on_numbers (λ m x y. x % y) b c;
  checked_srem = λ b c. if number c == 0 then none else on_numbers signed_remainder b c;
  checked_bitand = on_numbers (λ m. bit_and);
  checked_bitor = on_numbers (λ m. bit_or);
  checked_bitxor = on_numbers (λ m. bit_xor);
  checked_ult = compare_numbers (λ m. ltb);
  checked_ule = compare_numbers (λ m. leb);
  checked_slt = compare_numbers (λ m x y. ltb (signed_order m x) (signed_order m y));
  checked_sle = compare_numbers (λ m x y. leb (signed_order m x) (signed_order m y));
  checked_shl = λ k b. when (ltb k (length b)) (word (length b) (number b * 2 ^ k % 2 ^ length b));
  checked_lshr = λ k b. when (ltb k (length b)) (word (length b) (number b / 2 ^ k));
  checked_ashr = λ k b.
      when (ltb k (length b))
        (word (length b) (extend_sign (2 ^ (length b - k)) (2 ^ length b) (number b / 2 ^ k)));
  zero_extend = λ w b. when (leb (length b) w) (word w (number b));
  sign_extend =
      λ w b. when (leb (length b) w) (word w (extend_sign (2 ^ length b) (2 ^ w) (number b)));
  truncate = λ w b. when (leb w (length b)) (word w (number b % 2 ^ w));
}
