-- ===== src/IntermediateRepresentation/Expression/Simplify/Tests.antt =====
-- The rewriting of expressions at concrete values.
use fkie_cad_cwe_checker.IntermediateRepresentation.Expression.Simplify.Differences.{avoids_one}
use fkie_cad_cwe_checker.Prelude.Powers.{modulus}
use fkie_cad_cwe_checker.IntermediateRepresentation.Expression.Simplify.Same.{same_expression}
use fkie_cad_cwe_checker.Prelude.{◌≡◌, refl, Bool, true, false, List, [], ◌∷◌, ◌≤◌, ◌↔◌, arith}
use fkie_cad_cwe_checker.Prelude.Outcome.{ok}
use fkie_cad_cwe_checker.Apint.{byte_size_from}
use fkie_cad_cwe_checker.Apint.Words.{words, word_arithmetic, number, same_word}
use fkie_cad_cwe_checker.Apint.Words
use fkie_cad_cwe_checker.Apint.Words.Laws.{words-IsArithmetic}
use fkie_cad_cwe_checker.IntermediateRepresentation.Variable.{Variable}
use fkie_cad_cwe_checker.IntermediateRepresentation.Expression.{Expression, bytesize}
use fkie_cad_cwe_checker.IntermediateRepresentation.Expression.Expression.{
  var, const, bin_op, cast, subpiece,
}
use fkie_cad_cwe_checker.IntermediateRepresentation.Expression.BinOpType.{
  int_add, int_sub, int_equal, int_not_equal,
}
use fkie_cad_cwe_checker.IntermediateRepresentation.Expression.CastOpType.{int_z_ext}
use fkie_cad_cwe_checker.IntermediateRepresentation.Expression.Semantics.{evaluate}
use fkie_cad_cwe_checker.IntermediateRepresentation.Expression.Pcode.{
  Word, Others, minus, binary_word, cast_word, plus,
}
use fkie_cad_cwe_checker.IntermediateRepresentation.Expression.Pcode
use fkie_cad_cwe_checker.IntermediateRepresentation.Expression.Simplify.{
  substitute_trivial_operations, substitute_equivalent_comparison_ops,
}
use fkie_cad_cwe_checker.IntermediateRepresentation.Expression.Simplify.Typed.{IsTyped, value_of}
use fkie_cad_cwe_checker.IntermediateRepresentation.Expression.Simplify.Folding.{Returns}
use fkie_cad_cwe_checker.IntermediateRepresentation.Expression.Simplify.Correct.{
  run_avoids_one, substitute_trivial_operations-Returns, bytesize-substitute_trivial_operations,
  substitute_equivalent_comparison_ops-one,
}

abbrev others : Others
others = record {
  binary_bits = λ op x y. 0;
  unary_bits = λ op x. 0;
  cast_bits = λ op size x. 0;
  unknown_bits = λ description size. 0;
}

abbrev eax : Variable
eax = record { name = 1 ∷ []; size = 4; is_temp = false }

abbrev ecx : Variable
ecx = record { name = 2 ∷ []; size = 4; is_temp = false }

-- The name of a register is its number.
abbrev state : Variable → Word
state v = Pcode.word v.size 5

-- The low half of an extended sum.
abbrev extended_sum : Expression (List Bool)
extended_sum = subpiece 0 4 (
    cast int_z_ext 8 (
      bin_op int_add (bin_op int_add (var eax) (const (Words.word 32 3)))
        (const (Words.word 32 4))))

simplified_sum :
    substitute_trivial_operations words word_arithmetic extended_sum
    ≡ ok (bin_op int_add (var eax) (const (Words.word 32 7)))
unfolding substitute_trivial_operations same_expression number Words.word Words.on_numbers bytesize
simplified_sum = refl

extended_sum-IsTyped : IsTyped words number others state extended_sum
unfolding IsTyped Words.word byte_size_from modulus evaluate binary_word cast_word
extended_sum-IsTyped = (
  (
    (((refl, omega arith, omega arith), (refl, omega arith), refl), (refl, omega arith), refl),
    omega arith,
    omega arith,
  ),
  omega arith,
  omega arith,
)

sum_avoids_one : run_avoids_one words word_arithmetic extended_sum ≡ true
unfolding run_avoids_one substitute_trivial_operations avoids_one same_expression number Words.word
sum_avoids_one = refl

substitute_trivial_operations-Returns_example :
    Returns words word_arithmetic number words-IsArithmetic others state extended_sum
      (substitute_trivial_operations words word_arithmetic extended_sum)
substitute_trivial_operations-Returns_example =
    substitute_trivial_operations-Returns words word_arithmetic number words-IsArithmetic others
      state extended_sum sum_avoids_one extended_sum-IsTyped

bytesize-substitute_trivial_operations_example :
    (e : Expression (List Bool)) × (substitute_trivial_operations words word_arithmetic extended_sum
      ≡ ok e)
    × (bytesize words e ≡ bytesize words extended_sum)
bytesize-substitute_trivial_operations_example =
    bytesize-substitute_trivial_operations words word_arithmetic number words-IsArithmetic others
      state extended_sum sum_avoids_one extended_sum-IsTyped

eax-IsTyped : IsTyped words number others state (var eax)
unfolding IsTyped modulus
eax-IsTyped = (refl, omega arith, omega arith)

ecx-IsTyped : IsTyped words number others state (var ecx)
unfolding IsTyped modulus
ecx-IsTyped = (refl, omega arith, omega arith)

-- `1 == eax - ecx`
abbrev one_test : Expression (List Bool)
one_test = bin_op int_equal (const (Words.word 32 1)) (bin_op int_sub (var eax) (var ecx))

word_one : word_arithmetic.is_one (Words.word 32 1) ≡ true
unfolding Words.word number
word_one = refl

substitute_equivalent_comparison_ops-one_example :
    (substitute_equivalent_comparison_ops words word_arithmetic one_test
      ≡ bin_op int_not_equal (var eax) (var ecx))
    × ((value_of words number others state (bin_op int_not_equal (var eax) (var ecx))
          ≡ value_of words number others state one_test)
        ↔ (minus
              (value_of words number others state (var eax))
              (value_of words number others state (var ecx))
            ≤ 1))
unfolding evaluate
substitute_equivalent_comparison_ops-one_example =
    substitute_equivalent_comparison_ops-one words word_arithmetic number words-IsArithmetic others
      state (Words.word 32 1) (var eax) (var ecx) word_one eax-IsTyped ecx-IsTyped refl
