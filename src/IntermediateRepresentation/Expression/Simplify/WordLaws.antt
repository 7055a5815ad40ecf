-- ===== src/IntermediateRepresentation/Expression/Simplify/WordLaws.antt =====
-- Equations between the operations on words, on which the rewriting of expressions rests.
use fkie_cad_cwe_checker.IntermediateRepresentation.Expression.Simplify.{absorbs_zero, absorbs_ones}
use fkie_cad_cwe_checker.Prelude.{
  ◌≡◌, ap, sym, Bool, true, false, not, arith, ◌*◌, ℕ, ◌==◌, ◌<◌, ◌≤◌, ◌+◌, if◌then◌else◌,
}
use Prim.Native.Nat.{zero, suc, bit_xor, bit_and, bit_or}
use fkie_cad_cwe_checker.Prelude.Powers.{modulus}
use mathlib.Core.Path.{◌∙◌, refl, sym, ap, ap₂, subst}
use fkie_cad_cwe_checker.IntermediateRepresentation.Expression.UnOpType.{bool_negate}
use fkie_cad_cwe_checker.Prelude.Bits.{
  bit_and-same, bit_or-same, bit_xor-same, bit_and_comm, bit_or_comm, bit_xor_comm, bit_or-zero,
  bit_xor-zero, bit_and-mask, bit_and-zero,
}
use fkie_cad_cwe_checker.IntermediateRepresentation.Expression.{BinOpType}
use fkie_cad_cwe_checker.IntermediateRepresentation.Expression.BinOpType.{
  int_equal, int_not_equal, int_less, int_s_less, int_less_equal, int_s_less_equal, int_x_or,
  int_and, int_or, bool_x_or, bool_and, bool_or,
}
use fkie_cad_cwe_checker.IntermediateRepresentation.Expression.Pcode.{
  Word, word, truth, Others, binary_word, unary_word,
}
use fkie_cad_cwe_checker.IntermediateRepresentation.Expression.Simplify.Typed.{Operands, Fits}

pub word_path : (x y : Word) → x.size ≡ y.size → x.bits ≡ y.bits → x ≡ y
word_path x y h k = ap₂ word h k

-- The operands of these can be swapped.
abbrev pub commutes : BinOpType → Bool
commutes op = elim op [
  | int_equal ↦ true
  | int_not_equal ↦ true
  | int_and ↦ true
  | int_or ↦ true
  | int_x_or ↦ true
  | bool_and ↦ true
  | bool_or ↦ true
  | bool_x_or ↦ true
  | _ ↦ false
]

pub commutes-Operands :
    (op : BinOpType) (x y : Word) → commutes op ≡ true → Operands op x y → Operands op y x
unfolding Operands
commutes-Operands op x y h t = ground arith

-- The operations that keep an operand that is combined with itself.
abbrev pub keeps_same : BinOpType → Bool
keeps_same op = elim op [
  | int_and ↦ true
  | int_or ↦ true
  | bool_and ↦ true
  | bool_or ↦ true
  | _ ↦ false
]

ones_and : (n b m : ℕ) → b < modulus n → m + 1 ≡ modulus n → bit_and m b ≡ b
unfolding modulus
ones_and n b m h k = bit_and-mask (8 * n) b m h k

and_one : (b : ℕ) → b ≤ 1 → bit_and 1 b ≡ b
and_one zero h = bit_and_comm 1 0 ∙ bit_and-zero 1
and_one (suc zero) h = refl
and_one (suc (suc b)) h = absurd (omega arith)

or_one : (b : ℕ) → b ≤ 1 → bit_or 1 b ≡ 1
or_one zero h = bit_or_comm 1 0 ∙ bit_or-zero 1
or_one (suc zero) h = refl
or_one (suc (suc b)) h = absurd (omega arith)

xor_one : (b : ℕ) → b ≤ 1 → bit_xor 1 b ≡ (if b == 0 then 1 else 0)
xor_one zero h = bit_xor_comm 1 0 ∙ bit_xor-zero 1
xor_one (suc zero) h = refl
xor_one (suc (suc b)) h = absurd (omega arith)

-- What the comparison of a value with itself is.
abbrev pub reflexive : BinOpType → Bool → Bool
reflexive op b = elim op [
  | int_equal ↦ b
  | int_less_equal ↦ b
  | int_s_less_equal ↦ b
  | int_not_equal ↦ not b
  | int_less ↦ not b
  | int_s_less ↦ not b
  | _ ↦ false
]

module _ (others : Others) where
  pub commutes-swap :
      (op : BinOpType) (x y : Word)
      → commutes op ≡ true
      → Operands op x y
      → binary_word others op y x ≡ binary_word others op x y
  unfolding binary_word Operands
  commutes-swap op x y h t =
      ground
        (arith, bit_and_comm x.bits y.bits, bit_or_comm x.bits y.bits, bit_xor_comm x.bits y.bits)

  pub same-kept :
      (op : BinOpType) (x : Word)
      → keeps_same op ≡ true
      → Operands op x x
      → binary_word others op x x ≡ x
  unfolding binary_word Operands
  same-kept op x h t =
      word_path _ x (ground arith) (ground (arith, bit_and-same x.bits, bit_or-same x.bits))

  pub xor_same : (x : Word) → binary_word others int_x_or x x ≡ word x.size 0
  unfolding binary_word
  xor_same x = ap (word x.size) (bit_xor-same x.bits)

  pub bool_xor_same :
      (x : Word) → Operands bool_x_or x x → binary_word others bool_x_or x x ≡ word x.size 0
  unfolding binary_word Operands
  bool_xor_same x t = ap₂ word (sym t.0.0) (bit_xor-same x.bits)

  pub same-reflexive :
      (op : BinOpType) (x : Word)
      → reflexive op true ≡ true
      → binary_word others op x x ≡ truth true
  unfolding binary_word
  same-reflexive op x h = ground arith

  pub same-irreflexive :
      (op : BinOpType) (x : Word)
      → reflexive op false ≡ true
      → binary_word others op x x ≡ truth false
  unfolding binary_word
  same-irreflexive op x h = ground arith

  pub zero-neutral :
      (op : BinOpType) (x y : Word)
      → absorbs_zero op ≡ true
      → Operands op x y
      → x.bits ≡ 0
      → binary_word others op x y ≡ y
  unfolding binary_word Operands
  zero-neutral op x y h t z = word_path _ y (ground arith) (
      subst (λ n. (binary_word others op (word x.size n) y).bits ≡ y.bits) (sym z)
        (ground (arith, bit_or-zero y.bits, bit_xor-zero y.bits)))

  pub ones-neutral :
      (op : BinOpType) (x y : Word)
      → absorbs_ones op ≡ true
      → Operands op x y
      → Fits y
      → x.bits + 1 ≡ modulus x.size
      → binary_word others op x y ≡ y
  unfolding binary_word Operands
  ones-neutral int_and x y h t f m =
      word_path _ y t (ones_and y.size y.bits x.bits f (m ∙ ap modulus t))
  ones-neutral bool_and x y h t f m =
      word_path _ y (sym t.1.0)
        (ones_and y.size y.bits x.bits f (m ∙ ap modulus (t.0.0 ∙ sym t.1.0)))
  ones-neutral _ x y h t f m = ground arith

  pub and_false :
      (x y : Word) → Operands bool_and x y → x.bits ≡ 0 → binary_word others bool_and x y ≡ x
  unfolding binary_word Operands
  and_false x y t z =
      word_path _ x (sym t.0.0) (ap (λ n. bit_and n y.bits) z ∙ bit_and-zero y.bits ∙ sym z)

  pub and_true :
      (x y : Word) → Operands bool_and x y → x.bits ≡ 1 → binary_word others bool_and x y ≡ y
  unfolding binary_word Operands
  and_true x y t z = word_path _ y (sym t.1.0) (ap (λ n. bit_and n y.bits) z ∙ and_one y.bits t.1.1)

  pub or_true :
      (x y : Word) → Operands bool_or x y → x.bits ≡ 1 → binary_word others bool_or x y ≡ x
  unfolding binary_word Operands
  or_true x y t z =
      word_path _ x (sym t.0.0) (ap (λ n. bit_or n y.bits) z ∙ or_one y.bits t.1.1 ∙ sym z)

  pub xor_true :
      (x y : Word)
      → Operands bool_x_or x y
      → x.bits ≡ 1
      → binary_word others bool_x_or x y ≡ unary_word others bool_negate y
  unfolding binary_word unary_word Operands
  xor_true x y t z = word_path _ _ (sym t.1.0) (ap (λ n. bit_xor n y.bits) z ∙ xor_one y.bits t.1.1)
