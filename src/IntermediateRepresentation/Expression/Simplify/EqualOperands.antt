-- ===== src/IntermediateRepresentation/Expression/Simplify/EqualOperands.antt =====
-- The rewriting of an operation with two equal operands.
use fkie_cad_cwe_checker.IntermediateRepresentation.Expression.Expression.{const, bin_op}
use fkie_cad_cwe_checker.Prelude.{ℕ, ◌<◌, ◌≡◌, refl, ap, sym, ◌∙◌, true, false, some, arith}
use mathlib.Core.Path.{subst, ap₂}
use fkie_cad_cwe_checker.Apint.{ApInt, byte_size_from}
use fkie_cad_cwe_checker.Apint.Arithmetic.{Arithmetic, IsArithmetic}
use fkie_cad_cwe_checker.IntermediateRepresentation.Bitvector.{as_bit_length}
use fkie_cad_cwe_checker.IntermediateRepresentation.Variable.{Variable}
use fkie_cad_cwe_checker.IntermediateRepresentation.Expression.{BinOpType, Expression, bytesize}
use fkie_cad_cwe_checker.IntermediateRepresentation.Expression.BinOpType.{
  int_equal, int_not_equal, int_less, int_s_less, int_less_equal, int_s_less_equal, int_x_or,
  int_and, int_or, bool_x_or, bool_and, bool_or,
}
use fkie_cad_cwe_checker.IntermediateRepresentation.Expression.Semantics.{evaluate}
use fkie_cad_cwe_checker.IntermediateRepresentation.Expression.Pcode.{
  Word, word, Others, binary_word,
}
use fkie_cad_cwe_checker.IntermediateRepresentation.Expression.Simplify.{
  unwrap_or, equal_operands, substitute_binop_for_lhs_equal_rhs,
}
use fkie_cad_cwe_checker.IntermediateRepresentation.Expression.Simplify.Same.{
  same_expression, same_expression_sound,
}
use fkie_cad_cwe_checker.IntermediateRepresentation.Expression.Simplify.Typed.{
  IsTyped, value_of, value_of-size, value_of-pos,
}
use fkie_cad_cwe_checker.IntermediateRepresentation.Expression.Simplify.WordLaws.{
  keeps_same, reflexive, same-kept, xor_same, bool_xor_same, same-reflexive, same-irreflexive,
}
use fkie_cad_cwe_checker.IntermediateRepresentation.Expression.Simplify.Keeps.{
  some-path, Replaces, Keeps, unwrap_or-Keeps, Keeps-refl, if-Keeps,
}

whole_bytes : (n : ℕ) → byte_size_from (as_bit_length n) ≡ n
unfolding byte_size_from
whole_bytes n = omega arith

module _ (api : ApInt) (a : Arithmetic api) (value : api.Bitvector → ℕ)
    (laws : IsArithmetic api a value) (others : Others) (s : Variable → Word) where
  abbrev pub Expr : Type 0
  Expr = Expression api.Bitvector

  abbrev pub V : Expr → Word
  V = value_of api value others s

  abbrev pub Typed : Expr → Type 0
  Typed = IsTyped api value others s

  -- A constant of `n` whole bytes.
  constant-Replaces :
      (c : api.Bitvector) (n k : ℕ) (e : Expr)
      → 0 < n
      → (api.width c ≡ as_bit_length n) × (value c ≡ k)
      → word n k ≡ V e
      → Replaces api value others s e (const c)
  unfolding IsTyped evaluate
  constant-Replaces c n k e p h q =
      let size : byte_size_from (api.width c) ≡ n = ap byte_size_from h.0 ∙ whole_bytes n in
      ((h.0 ∙ ap as_bit_length (sym size), omega (arith, h.0)), ap₂ word size h.1 ∙ q)

  zero-Replaces :
      (n : ℕ) (e : Expr)
      → 0 < n
      → word n 0 ≡ V e
      → Replaces api value others s e (const (a.zero_of (as_bit_length n)))
  zero-Replaces n e p q =
      constant-Replaces (a.zero_of (as_bit_length n)) n 0 e p
        (laws.zero_of-Stands (as_bit_length n) (omega arith)) q

  one-Replaces :
      (e : Expr)
      → word 1 1 ≡ V e
      → Replaces api value others s e (const (a.one_of (as_bit_length 1)))
  one-Replaces e q =
      constant-Replaces (a.one_of (as_bit_length 1)) 1 1 e (omega arith)
        (laws.one_of-Stands (as_bit_length 1) (omega arith)) q

  abbrev pub Goal : Expr → Expr → Type 0
  Goal = Replaces api value others s

  kept-Replaces :
      (op : BinOpType) (e : Expr)
      → keeps_same op ≡ true
      → Typed (bin_op op e e)
      → Goal (bin_op op e e) e
  unfolding IsTyped evaluate
  kept-Replaces op e k t = (t.0, sym (same-kept others op (V e) k t.2))

  true-Replaces :
      (op : BinOpType) (e : Expr)
      → reflexive op true ≡ true
      → Goal (bin_op op e e) (const (a.one_of (as_bit_length 1)))
  unfolding evaluate
  true-Replaces op e k = one-Replaces (bin_op op e e) (sym (same-reflexive others op (V e) k))

  false-Replaces :
      (op : BinOpType) (e : Expr)
      → reflexive op false ≡ true
      → Goal (bin_op op e e) (const (a.zero_of (as_bit_length 1)))
  unfolding evaluate
  false-Replaces op e k =
      zero-Replaces 1 (bin_op op e e) (omega arith) (sym (same-irreflexive others op (V e) k))

  -- `e xor e` is a zero of the size of `e`.
  xor-Replaces :
      (op : BinOpType) (e : Expr)
      → Typed e
      → binary_word others op (V e) (V e) ≡ word (V e).size 0
      → Goal (bin_op op e e) (const (a.zero_of (as_bit_length (bytesize api e))))
  unfolding evaluate
  xor-Replaces op e t q =
      let size : (V e).size ≡ bytesize api e = value_of-size api value others s e t in
      zero-Replaces (bytesize api e) (bin_op op e e)
        (subst (λ n. 0 < n) size (value_of-pos api value others s e t))
        (ap (λ n. word n 0) (sym size) ∙ sym q)

  equal_operands-Keeps :
      (op : BinOpType) (e e' : Expr)
      → equal_operands api a op e ≡ some e'
      → Keeps api value others s (bin_op op e e) e'
  unfolding equal_operands IsTyped
  equal_operands-Keeps bool_and e e' h t =
      some-path (Goal (bin_op bool_and e e)) _ e' h (kept-Replaces bool_and e refl t)
  equal_operands-Keeps bool_or e e' h t =
      some-path (Goal (bin_op bool_or e e)) _ e' h (kept-Replaces bool_or e refl t)
  equal_operands-Keeps int_and e e' h t =
      some-path (Goal (bin_op int_and e e)) _ e' h (kept-Replaces int_and e refl t)
  equal_operands-Keeps int_or e e' h t =
      some-path (Goal (bin_op int_or e e)) _ e' h (kept-Replaces int_or e refl t)
  equal_operands-Keeps bool_x_or e e' h t =
      some-path (Goal (bin_op bool_x_or e e)) _ e' h
        (xor-Replaces bool_x_or e t.0 (bool_xor_same others (V e) t.2))
  equal_operands-Keeps int_x_or e e' h t =
      some-path (Goal (bin_op int_x_or e e)) _ e' h
        (xor-Replaces int_x_or e t.0 (xor_same others (V e)))
  equal_operands-Keeps int_equal e e' h t =
      some-path (Goal (bin_op int_equal e e)) _ e' h (true-Replaces int_equal e refl)
  equal_operands-Keeps int_less_equal e e' h t =
      some-path (Goal (bin_op int_less_equal e e)) _ e' h (true-Replaces int_less_equal e refl)
  equal_operands-Keeps int_s_less_equal e e' h t =
      some-path (Goal (bin_op int_s_less_equal e e)) _ e' h (true-Replaces int_s_less_equal e refl)
  equal_operands-Keeps int_not_equal e e' h t =
      some-path (Goal (bin_op int_not_equal e e)) _ e' h (false-Replaces int_not_equal e refl)
  equal_operands-Keeps int_less e e' h t =
      some-path (Goal (bin_op int_less e e)) _ e' h (false-Replaces int_less e refl)
  equal_operands-Keeps int_s_less e e' h t =
      some-path (Goal (bin_op int_s_less e e)) _ e' h (false-Replaces int_s_less e refl)
  equal_operands-Keeps _ e e' h t = cc

  pub substitute_binop_for_lhs_equal_rhs-Keeps :
      (e : Expr) → Keeps api value others s e (substitute_binop_for_lhs_equal_rhs api a e)
  unfolding substitute_binop_for_lhs_equal_rhs
  substitute_binop_for_lhs_equal_rhs-Keeps (bin_op op lhs rhs) =
      let replaced : Expr → Expr = λ r. unwrap_or (equal_operands api a op lhs) (bin_op op lhs r) in
      if-Keeps api value others s (same_expression api a lhs rhs) (bin_op op lhs rhs) (replaced rhs)
        (bin_op op lhs rhs)
        (λ same.
          subst (λ r. Keeps api value others s (bin_op op lhs r) (replaced r))
            (same_expression_sound api a laws.equal_sound lhs rhs same)
            (unwrap_or-Keeps api value others s (equal_operands api a op lhs) (bin_op op lhs lhs)
              (equal_operands-Keeps op lhs)))
        (λ _. Keeps-refl api value others s (bin_op op lhs rhs))
  substitute_binop_for_lhs_equal_rhs-Keeps e = Keeps-refl api value others s e
  -- What an arm has to keep when its constant is the first operand.
