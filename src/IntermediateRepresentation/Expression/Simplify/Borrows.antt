-- ===== src/IntermediateRepresentation/Expression/Simplify/Borrows.antt =====
-- The rewriting of a comparison of the sign of a difference with its borrow.
use fkie_cad_cwe_checker.Prelude.{
  ℕ, ◌≡◌, refl, ap, sym, ◌∙◌, ◌⊎◌, inl, inr, true, Option, some, none,
}
use mathlib.Core.Path.{subst}
use fkie_cad_cwe_checker.Apint.{ApInt}
use fkie_cad_cwe_checker.Apint.Arithmetic.{Arithmetic, IsArithmetic}
use fkie_cad_cwe_checker.IntermediateRepresentation.Variable.{Variable}
use fkie_cad_cwe_checker.IntermediateRepresentation.Expression.{BinOpType, Expression}
use fkie_cad_cwe_checker.IntermediateRepresentation.Expression.Expression.{const, bin_op}
use fkie_cad_cwe_checker.IntermediateRepresentation.Expression.BinOpType.{
  int_equal, int_not_equal, int_s_less, int_s_less_equal, int_sub, int_s_borrow,
}
use fkie_cad_cwe_checker.IntermediateRepresentation.Expression.Semantics.{evaluate}
use fkie_cad_cwe_checker.IntermediateRepresentation.Expression.Pcode.{
  Word, word, Others, binary_word,
}
use fkie_cad_cwe_checker.IntermediateRepresentation.Expression.Simplify.{
  unpack_a_minus_b_less_than_zero, unpack_a_intsborrow_b, sign_and_borrow,
  substitute_complicated_a_less_than_b, same_pair, less_than,
}
use fkie_cad_cwe_checker.IntermediateRepresentation.Expression.Simplify.Same.{
  same_bin_op_sound, same_expression_sound,
}
use fkie_cad_cwe_checker.IntermediateRepresentation.Expression.Simplify.Typed.{
  Fits, Operands, IsTyped, value_of, value_of-Fits, value_of-pos,
}
use fkie_cad_cwe_checker.IntermediateRepresentation.Expression.Simplify.Comparisons.{
  sign-unequal-borrow, sign-equal-borrow,
}
use fkie_cad_cwe_checker.IntermediateRepresentation.Expression.Simplify.Keeps.{
  some-path, on_some, Replaces, Keeps, Keeps-trans, bin_op-swap, unwrap_or-Keeps, Keeps-refl,
}
use fkie_cad_cwe_checker.IntermediateRepresentation.Expression.Simplify.Constants.{zero_value}
use fkie_cad_cwe_checker.IntermediateRepresentation.Expression.Simplify.Joins.{and-both}
use fkie_cad_cwe_checker.IntermediateRepresentation.Expression.Simplify.WordLaws.{
  word_path, commutes,
}

module _ (api : ApInt) (a : Arithmetic api) (value : api.Bitvector → ℕ)
    (laws : IsArithmetic api a value) (others : Others) (s : Variable → Word) where
  abbrev Expr : Type 0
  Expr = Expression api.Bitvector

  abbrev V : Expr → Word
  V = value_of api value others s

  abbrev Goal : Expr → Expr → Type 0
  Goal = Replaces api value others s

  abbrev Typed : Expr → Type 0
  Typed = IsTyped api value others s

  fits : (e : Expr) → Typed e → Fits (V e)
  fits = value_of-Fits api value others s laws.value-lt

  abbrev sign_of : Expr → Expr → api.Bitvector → Expr
  sign_of x y c = bin_op int_s_less (bin_op int_sub x y) (const c)

  unpack_less_lem :
      (e x y : Expr)
      → unpack_a_minus_b_less_than_zero api a e ≡ some (x, y)
      → (c : api.Bitvector) × (e ≡ sign_of x y c) × (a.is_zero c ≡ true)
  unfolding unpack_a_minus_b_less_than_zero
  unpack_less_lem (bin_op op (bin_op inner_op lhs rhs) (const c)) x y h =
      let (guard, p) = on_some _ (lhs, rhs) (x, y) h in
      let (is_less, zero_and_sub) = and-both _ _ guard in
      let (z, is_sub) = and-both _ _ zero_and_sub in
      let q : op ≡ int_s_less = same_bin_op_sound op int_s_less is_less in
      let r : inner_op ≡ int_sub = same_bin_op_sound inner_op int_sub is_sub in (c, cc, z)
  unpack_less_lem _ x y h = cc

  unpack_borrow_lem :
      (e x y : Expr) → unpack_a_intsborrow_b api a e ≡ some (x, y) → e ≡ bin_op int_s_borrow x y
  unfolding unpack_a_intsborrow_b
  unpack_borrow_lem (bin_op op lhs rhs) x y h =
      let (guard, p) = on_some _ (lhs, rhs) (x, y) h in
      let q : op ≡ int_s_borrow = same_bin_op_sound op int_s_borrow guard in cc
  unpack_borrow_lem _ x y h = cc

  same_pair_lem :
      (o p : Option (Expr × Expr)) (x y : Expr)
      → same_pair api a o p ≡ some (x, y)
      → (o ≡ some (x, y)) × (p ≡ some (x, y))
  same_pair_lem (some (l, m)) (some (l', m')) x y h =
      let (guard, p) = on_some _ (l, m) (x, y) h in
      let (is_l, is_m) = and-both _ _ guard in
      let q : l ≡ l' = same_expression_sound api a laws.equal_sound l l' is_l in
      let r : m ≡ m' = same_expression_sound api a laws.equal_sound m m' is_m in (cc, cc)
  same_pair_lem none p x y h = cc
  same_pair_lem (some z) none x y h = cc

  -- One of the sides is the sign of the difference of `x` and `y`, and the other one is its borrow.
  Matches : Expr → Expr → Expr → Expr → Type 0
  Matches lhs rhs x y =
      (c : api.Bitvector) × (lhs ≡ sign_of x y c)
      × (a.is_zero c ≡ true)
      × (rhs ≡ bin_op int_s_borrow x y)

  -- The borrow and the sign stand in the two operands.
  matched :
      (lhs rhs x y : Expr)
      → unpack_a_minus_b_less_than_zero api a lhs ≡ some (x, y)
      → unpack_a_intsborrow_b api a rhs ≡ some (x, y)
      → Matches lhs rhs x y
  unfolding Matches
  matched lhs rhs x y h k =
      let (c, p, z) = unpack_less_lem lhs x y h in (c, p, z, unpack_borrow_lem rhs x y k)

  matched_sign :
      (o : Option (Expr × Expr)) (lhs rhs x y : Expr)
      → unpack_a_minus_b_less_than_zero api a lhs ≡ o
      → elim o [
        | some pair ↦ same_pair api a (some pair) (unpack_a_intsborrow_b api a rhs)
        | none ↦
            same_pair api a
              (unpack_a_intsborrow_b api a lhs)
              (unpack_a_minus_b_less_than_zero api a rhs)
      ]
        ≡ some (x, y)
      → Matches lhs rhs x y ⊎ Matches rhs lhs x y
  matched_sign (some pair) lhs rhs x y h k =
      let (p, q) = same_pair_lem (some pair) (unpack_a_intsborrow_b api a rhs) x y k in
      inl (matched lhs rhs x y (h ∙ p) q)
  matched_sign none lhs rhs x y h k =
      let (p, q) =
        same_pair_lem (unpack_a_intsborrow_b api a lhs) (unpack_a_minus_b_less_than_zero api a rhs)
          x y k in
      inr (matched rhs lhs x y q p)

  sign_and_borrow_lem :
      (lhs rhs x y : Expr)
      → sign_and_borrow api a lhs rhs ≡ some (x, y)
      → Matches lhs rhs x y ⊎ Matches rhs lhs x y
  unfolding sign_and_borrow
  sign_and_borrow_lem lhs rhs x y h =
      matched_sign (unpack_a_minus_b_less_than_zero api a lhs) lhs rhs x y refl h

  -- The word of a zero of the size of the difference.
  zero_word :
      (x y : Expr) (c : api.Bitvector)
      → Typed (sign_of x y c)
      → a.is_zero c ≡ true
      → V (const c) ≡ word (V x).size 0
  unfolding IsTyped evaluate Operands binary_word
  zero_word x y c t z = word_path _ _ (sym t.2) (zero_value api a value laws others s c z)

  module _ (op : BinOpType) (x y e' : Expr) (c : commutes op ≡ true)
      (sign_then_borrow : (b : api.Bitvector)
        → a.is_zero b ≡ true
        → Keeps api value others s (bin_op op (sign_of x y b) (bin_op int_s_borrow x y)) e') where
    Matches-Keeps :
        (lhs rhs : Expr) → Matches lhs rhs x y → Keeps api value others s (bin_op op lhs rhs) e'
    unfolding Matches
    Matches-Keeps lhs rhs (b, p, z, q) =
        let e : bin_op op (sign_of x y b) (bin_op int_s_borrow x y) ≡ bin_op op lhs rhs = cc in
        subst (λ f. Keeps api value others s f e') e (sign_then_borrow b z)

    either_Matches-Keeps :
        (lhs rhs : Expr)
        → Matches lhs rhs x y ⊎ Matches rhs lhs x y
        → Keeps api value others s (bin_op op lhs rhs) e'
    either_Matches-Keeps lhs rhs (inl m) = Matches-Keeps lhs rhs m
    either_Matches-Keeps lhs rhs (inr m) =
        Keeps-trans api value others s (bin_op op lhs rhs) (bin_op op rhs lhs) e'
          (bin_op-swap api value others s op lhs rhs c) (Matches-Keeps rhs lhs m)

  unequal-Keeps :
      (x y : Expr) (b : api.Bitvector)
      → a.is_zero b ≡ true
      → Keeps api value others s
          (bin_op int_not_equal (sign_of x y b) (bin_op int_s_borrow x y))
          (bin_op int_s_less x y)
  unfolding IsTyped evaluate Operands
  unequal-Keeps x y b z t = (
    (t.1.0, t.1.1, t.1.2),
    sym (
        ap
          (λ w.
            binary_word others int_not_equal
              (binary_word others int_s_less (binary_word others int_sub (V x) (V y)) w)
              (binary_word others int_s_borrow (V x) (V y)))
          (zero_word x y b t.0 z)
        ∙ sign-unequal-borrow others (V x) (V y) (fits x t.1.0) (fits y t.1.1) t.1.2
            (value_of-pos api value others s x t.1.0)),
  )

  equal-Keeps :
      (x y : Expr) (b : api.Bitvector)
      → a.is_zero b ≡ true
      → Keeps api value others s
          (bin_op int_equal (sign_of x y b) (bin_op int_s_borrow x y))
          (bin_op int_s_less_equal y x)
  unfolding IsTyped evaluate Operands
  equal-Keeps x y b z t = (
    (t.1.1, t.1.0, sym t.1.2),
    sym (
        ap
          (λ w.
            binary_word others int_equal
              (binary_word others int_s_less (binary_word others int_sub (V x) (V y)) w)
              (binary_word others int_s_borrow (V x) (V y)))
          (zero_word x y b t.0 z)
        ∙ sign-equal-borrow others (V x) (V y) (fits x t.1.0) (fits y t.1.1) t.1.2
            (value_of-pos api value others s x t.1.0)),
  )

  less_than-Keeps :
      (op : BinOpType) (o : Option (Expr × Expr)) (lhs rhs e' : Expr)
      → sign_and_borrow api a lhs rhs ≡ o
      → less_than api a op o ≡ some e'
      → Keeps api value others s (bin_op op lhs rhs) e'
  less_than-Keeps op none lhs rhs e' h k = cc
  less_than-Keeps int_not_equal (some (x, y)) lhs rhs e' h k =
      some-path (Keeps api value others s (bin_op int_not_equal lhs rhs)) _ e' k (
        either_Matches-Keeps int_not_equal x y (bin_op int_s_less x y) refl (unequal-Keeps x y) lhs
          rhs (sign_and_borrow_lem lhs rhs x y h))
  less_than-Keeps int_equal (some (x, y)) lhs rhs e' h k =
      some-path (Keeps api value others s (bin_op int_equal lhs rhs)) _ e' k (
        either_Matches-Keeps int_equal x y (bin_op int_s_less_equal y x) refl (equal-Keeps x y) lhs
          rhs (sign_and_borrow_lem lhs rhs x y h))
  less_than-Keeps _ (some (x, y)) lhs rhs e' h k = cc

  pub substitute_complicated_a_less_than_b-Keeps :
      (e : Expr) → Keeps api value others s e (substitute_complicated_a_less_than_b api a e)
  unfolding substitute_complicated_a_less_than_b
  substitute_complicated_a_less_than_b-Keeps (bin_op op lhs rhs) =
      unwrap_or-Keeps api value others s (less_than api a op (sign_and_borrow api a lhs rhs))
        (bin_op op lhs rhs)
        (λ e' h. less_than-Keeps op (sign_and_borrow api a lhs rhs) lhs rhs e' refl h)
  substitute_complicated_a_less_than_b-Keeps e = Keeps-refl api value others s e
