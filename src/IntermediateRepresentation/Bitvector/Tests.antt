-- ===== src/IntermediateRepresentation/Bitvector/Tests.antt =====
-- The operations on bitvectors at concrete values.
use fkie_cad_cwe_checker.IntermediateRepresentation.Expression.Simplify.Typed.{Operands}
use fkie_cad_cwe_checker.Prelude.{ℕ, ◌≡◌, refl, Bool, true, List, some, none, ◌+◌, ◌<◌, ◌^◌, arith}
use fkie_cad_cwe_checker.Prelude.Outcome.{ok}
use fkie_cad_cwe_checker.Apint.{byte_size_from}
use fkie_cad_cwe_checker.Apint.Arithmetic.{is_negative, signed_order}
use fkie_cad_cwe_checker.Apint.Words.{
  words, word_arithmetic, word, number, on_numbers, compare_numbers,
}
use fkie_cad_cwe_checker.Apint.Words.Laws.{words-IsArithmetic}
use fkie_cad_cwe_checker.IntermediateRepresentation.Bitvector.{
  bin_op_bitvector, signed_borrow, flag, signed_add_overflow_checked, signed_sub_overflow_checked,
}
use fkie_cad_cwe_checker.IntermediateRepresentation.Bitvector.Implements.{bin_op_bitvector-Yields}
use fkie_cad_cwe_checker.IntermediateRepresentation.Bitvector.Yields.{Yields, IsWhole, word_of}
use fkie_cad_cwe_checker.IntermediateRepresentation.Bitvector.Overflow.{
  SumChecked, DifferenceChecked, integer, signed_add_overflow_checked-SumChecked,
  signed_sub_overflow_checked-DifferenceChecked, signed_borrow-negative,
}
use fkie_cad_cwe_checker.IntermediateRepresentation.Expression.BinOpType.{piece}
use fkie_cad_cwe_checker.IntermediateRepresentation.Expression.Pcode.{Others, binary_word}

abbrev others : Others
others = record {
  binary_bits = λ op x y. 0;
  unary_bits = λ op x. 0;
  cast_bits = λ op size x. 0;
  unknown_bits = λ description size. 0;
}

word-IsWhole : (n : ℕ) → IsWhole words (word 8 n)
unfolding word byte_size_from
word-IsWhole n = (refl, omega arith)

bin_op_bitvector-Yields_example :
    Yields words word_arithmetic number words-IsArithmetic others
      (bin_op_bitvector words word_arithmetic (word 8 0x12) piece (word 8 0x34))
      (binary_word others piece
        (word_of words number (word 8 0x12))
        (word_of words number (word 8 0x34)))
unfolding Operands
bin_op_bitvector-Yields_example =
    bin_op_bitvector-Yields words word_arithmetic number words-IsArithmetic others piece
      (word 8 0x12) (word 8 0x34) refl (word-IsWhole 0x12) (word-IsWhole 0x34) tt

byte-pos : (n : ℕ) → 0 < words.width (word 8 n)
unfolding word
byte-pos n = omega arith

byte_widths : (n m : ℕ) → words.width (word 8 n) ≡ words.width (word 8 m)
unfolding word
byte_widths n m = refl

signed_add_overflow_checked-SumChecked_example :
    SumChecked words word_arithmetic number (word 8 100) (word 8 100)
signed_add_overflow_checked-SumChecked_example =
    signed_add_overflow_checked-SumChecked words word_arithmetic number words-IsArithmetic
      (word 8 100) (word 8 100) (byte_widths 100 100) (byte-pos 100)

-- 100 + 100 overflows a byte.
sum_overflows :
    signed_add_overflow_checked words word_arithmetic (word 8 100) (word 8 100) ≡ ok none
unfolding signed_add_overflow_checked on_numbers word compare_numbers is_negative number
    signed_order
sum_overflows = refl

signed_sub_overflow_checked-DifferenceChecked_example :
    DifferenceChecked words word_arithmetic number (word 8 100) (word 8 156)
signed_sub_overflow_checked-DifferenceChecked_example =
    signed_sub_overflow_checked-DifferenceChecked words word_arithmetic number words-IsArithmetic
      (word 8 100) (word 8 156) (byte_widths 100 156) (byte-pos 100)

-- -3 and -1.
signed_borrow-negative_example :
    (signed_borrow words word_arithmetic (word 8 253) (word 8 255)
      ≡ flag words word_arithmetic true)
    × ((r : List Bool) × (signed_sub_overflow_checked words word_arithmetic
            (word 8 253)
            (word 8 255)
          ≡ ok (some r))
        × (integer words number r + integer words number (word 8 255)
            ≡ integer words number (word 8 253) + 2 ^ words.width (word 8 253)))
unfolding is_negative word number
signed_borrow-negative_example =
    signed_borrow-negative words word_arithmetic number words-IsArithmetic (word 8 253) (word 8 255)
      (byte_widths 253 255) (byte-pos 253) refl refl (omega arith)
