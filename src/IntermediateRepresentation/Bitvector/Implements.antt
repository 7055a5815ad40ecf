-- ===== src/IntermediateRepresentation/Bitvector/Implements.antt =====
-- The operations of src/cwe_checker_lib/src/intermediate_representation/bitvector.rs and the words of
-- P-Code.
use fkie_cad_cwe_checker.Prelude.{
  ℕ, ◌+◌, ◌-◌, ◌*◌, ◌/◌, ◌%◌, ◌^◌, ◌<◌, ◌≤◌, ◌≡◌, ap, sym, ◌∙◌, Bool, true, false, not, ◌&&◌, ◌||◌,
  ◌==◌, ltb, leb, ltb→lt, Option, some, Bool-cases, inl, inr, arith, if◌then◌else◌,
}
use Prim.Native.Nat.{bit_and, bit_or, bit_xor}
use mathlib.Core.Path.{subst, ap₂}
use native.Mathlib.Nat.{mod-eq_of_lt}
use fkie_cad_cwe_checker.Prelude.Bits.{bit_or-shifted}
use fkie_cad_cwe_checker.Prelude.Outcome.{◌>>=◌, unwrap}
use fkie_cad_cwe_checker.Prelude.Powers.{
  modulus, pow_add, shifted_left_out, shifted_right_out, piece-lt, pow_pos, modulus_even,
}
use fkie_cad_cwe_checker.Apint.{ApInt, byte_size_from}
use fkie_cad_cwe_checker.Apint.Arithmetic.{
  Arithmetic, IsArithmetic, Gives, is_negative, signed_order,
}
use fkie_cad_cwe_checker.IntermediateRepresentation.Bitvector.{
  ok_of, flag, bin_op_bitvector, piece_bitvectors, carry, signed_carry, shift_left, shift_right,
  equality, carries,
}
use fkie_cad_cwe_checker.IntermediateRepresentation.Expression.{BinOpType}
use fkie_cad_cwe_checker.IntermediateRepresentation.Expression.BinOpType.{
  piece, int_equal, int_not_equal, int_less, int_s_less, int_less_equal, int_s_less_equal, int_add,
  int_sub, int_carry, int_s_carry, int_x_or, int_and, int_or, int_left, int_right, bool_x_or,
  bool_and, bool_or,
}
use fkie_cad_cwe_checker.IntermediateRepresentation.Expression.Pcode.{
  word, truth, Others, binary_word, plus, minus, order, is_minus,
}
use fkie_cad_cwe_checker.IntermediateRepresentation.Expression.Simplify.Typed.{Operands}
use fkie_cad_cwe_checker.IntermediateRepresentation.Bitvector.Yields.{
  implemented, carry_at, overflows, s_carry_at, IsWhole, word_of, Yields, stands, yields, compared,
  runs,
}

module _ (api : ApInt) (a : Arithmetic api) (value : api.Bitvector → ℕ)
    (laws : IsArithmetic api a value) (others : Others) where
  module _ (b c : api.Bitvector) (h : IsWhole api b) (k : IsWhole api c) where
    size : 2 ^ api.width b ≡ modulus (byte_size_from (api.width b))
    unfolding modulus
    size = ap (λ n. 2 ^ n) h.0

    bytes-pos : 0 < byte_size_from (api.width b)
    bytes-pos = omega (arith, h.0, h.1)

    same_width :
        byte_size_from (api.width b) ≡ byte_size_from (api.width c) → api.width b ≡ api.width c
    same_width e = h.0 ∙ ap (λ n. 8 * n) e ∙ sym k.0

    -- An operation of the crate whose number is `f` of the count of the values.
    reduced :
        (result : Option api.Bitvector) (f : ℕ → ℕ)
        → Gives api value result (api.width b) (f (2 ^ api.width b))
        → Yields api a value laws others
            (ok_of api a result)
            (word (byte_size_from (api.width b)) (f (modulus (byte_size_from (api.width b)))))
    reduced result f g =
        subst
          (λ m.
            Yields api a value laws others (ok_of api a result)
              (word (byte_size_from (api.width b)) (f m)))
          size
          (yields api a value laws others result (api.width b) (byte_size_from (api.width b))
            (f (2 ^ api.width b)) g h.0 bytes-pos)

    piece_value :
        bit_or (value b * 2 ^ api.width c % 2 ^ (api.width b + api.width c)) (value c)
        ≡ value b * modulus (byte_size_from (api.width c)) + value c
    unfolding modulus
    piece_value =
        let below : value b * 2 ^ api.width c < 2 ^ (api.width b + api.width c) = omega (
          arith,
          piece-lt (value b) 0 (2 ^ api.width c) (2 ^ api.width b) (laws.value-lt b)
              (pow_pos (api.width c)),
          pow_add 2 (api.width b) (api.width c),
        ) in
        ap (λ n. bit_or n (value c)) (mod-eq_of_lt below)
        ∙ bit_or-shifted (api.width c) (value b) (value c) (laws.value-lt c)
        ∙ ap (λ n. value b * 2 ^ n + value c) k.0

    -- The high part is moved up, and the low part put below it.
    piece-Yields :
        Yields api a value laws others
          (piece_bitvectors api a b c)
          (binary_word others piece (word_of api value b) (word_of api value c))
    unfolding piece_bitvectors binary_word
    piece-Yields =
        let (x, p, q) = laws.zero_extend-Gives (api.width b + api.width c) b (omega arith) in
        let (y, p', q') = laws.zero_extend-Gives (api.width b + api.width c) c (omega arith) in
        let (u, r, v) = laws.checked_shl-Gives (api.width c) x (omega (arith, q.0, h.1)) in
        let (z, t, w) = laws.checked_bitor-Gives u y (v.0 ∙ q.0 ∙ sym q'.0) in
        let moved : value u ≡ value b * 2 ^ api.width c % 2 ^ (api.width b + api.width c) =
          v.1 ∙ ap₂ (λ n m. n * 2 ^ api.width c % 2 ^ m) q.1 q.0 in
        let (whole, e) =
          stands api a value laws others z (api.width b + api.width c)
            (byte_size_from (api.width b) + byte_size_from (api.width c))
            (value b * modulus (byte_size_from (api.width c)) + value c)
            (w.0 ∙ v.0 ∙ q.0, w.1 ∙ ap₂ bit_or moved q'.1 ∙ piece_value) (omega (arith, h.0, k.0))
            (omega (arith, bytes-pos)) in
        (
          z,
          ap₂
                (λ o o'. unwrap o >>= (λ extended.
                  unwrap (a.checked_shl (api.width c) extended) >>= (λ upper.
                    unwrap o' >>= (λ lower. ok_of api a (a.checked_bitor upper lower)))))
                p p'
              ∙ ap (λ o. unwrap o >>= (λ upper. ok_of api a (a.checked_bitor upper y))) r
              ∙ ap (ok_of api a) t,
          whole,
          e,
        )

    carry-Yields :
        byte_size_from (api.width b) ≡ byte_size_from (api.width c)
        → Yields api a value laws others
            (carry api a b c)
            (binary_word others int_carry (word_of api value b) (word_of api value c))
    unfolding carry binary_word
    carry-Yields e =
        let (x, p, q) = laws.checked_add-Gives b c (same_width e) in
        let below : a.checked_ult x b ≡ some (ltb (value x) (value b)) =
          laws.checked_ult_value x b q.0 in
        let below' : a.checked_ult x c ≡ some (ltb (value x) (value c)) =
          laws.checked_ult_value x c (q.0 ∙ same_width e) in
        let lt : value c < 2 ^ api.width b =
          subst (λ w. value c < 2 ^ w) (sym (same_width e)) (laws.value-lt c) in
        runs api a value laws others (carry api a b c)
          (ltb (value x) (value b) || ltb (value x) (value c)) _ (ground (arith, p, below, below'))
          (subst
            (λ m. (ltb (value x) (value b) || ltb (value x) (value c)) ≡ leb m (value b + value c))
            size
            (carry_at (2 ^ api.width b) (value b) (value c) (value x) (laws.value-lt b) lt q.1))

    s_carry-Yields :
        byte_size_from (api.width b) ≡ byte_size_from (api.width c)
        → Yields api a value laws others
            (signed_carry api a b c)
            (binary_word others int_s_carry (word_of api value b) (word_of api value c))
    unfolding signed_carry binary_word is_minus plus overflows
    s_carry-Yields e =
        let (x, p, q) = laws.checked_add-Gives b c (same_width e) in
        let lt : value c < 2 ^ api.width b =
          subst (λ w. value c < 2 ^ w) (sym (same_width e)) (laws.value-lt c) in
        let sign : a.sign_bit x ≡ is_negative (2 ^ api.width b) (value x) =
          laws.sign_bit_value x ∙ ap (λ w. is_negative (2 ^ w) (value x)) q.0 in
        let sign_c : a.sign_bit c ≡ is_negative (2 ^ api.width b) (value c) =
          laws.sign_bit_value c ∙ ap (λ w. is_negative (2 ^ w) (value c)) (sym (same_width e)) in
        let negative_c : (t : Bool)
            → is_negative (2 ^ api.width b) (value c) ≡ t
            → is_negative (2 ^ api.width c) (value c) ≡ t =
          λ t n. ap (λ w. is_negative (2 ^ w) (value c)) (sym (same_width e)) ∙ n in
        let sum : value x ≡ plus (word_of api value b) (word_of api value c) =
          q.1 ∙ ap (λ m. (value b + value c) % m) size in
        let at_width : carries api a b c x
            ≡ overflows (2 ^ api.width b) (2 ^ api.width b) (value b) (value c) (value x) =
          ap
            (λ n.
              (n && (a.is_positive b && a.is_positive c))
              || (not n && (a.sign_bit b && a.sign_bit c)))
            sign
          ∙ ap₂
              (λ n n'.
                (is_negative (2 ^ api.width b) (value x) && (a.is_positive b && a.is_positive c))
                || (not (is_negative (2 ^ api.width b) (value x)) && (n && n')))
              (laws.sign_bit_value b) sign_c
          ∙ s_carry_at (2 ^ api.width b) (2 ^ api.width b / 2) (value b) (value c) (value x)
              (a.is_positive b) (a.is_positive c) (laws.value-lt b) lt
              (size
                ∙ modulus_even (byte_size_from (api.width b)) bytes-pos
                ∙ ap (λ m. 2 * (m / 2)) (sym size))
              q.1 (laws.is_positive_true b) (laws.is_positive_false b)
              (λ r n. laws.is_positive_true c r (negative_c false n))
              (λ n. laws.is_positive_false c (negative_c true n)) in
        runs api a value laws others (signed_carry api a b c) (carries api a b c x) _
          (ap (λ o. unwrap o >>= (λ result. flag api a (carries api a b c result))) p)
          (at_width
            ∙ ap (λ m. overflows m (2 ^ api.width b) (value b) (value c) (value x)) size
            ∙ ap
                (λ m.
                  overflows (modulus (byte_size_from (api.width b))) m (value b) (value c)
                    (value x))
                (size ∙ ap modulus e)
            ∙ ap
                (overflows (modulus (byte_size_from (api.width b)))
                  (modulus (byte_size_from (api.width c))) (value b) (value c))
                sum)

    outside : ltb (value c) (api.width b) ≡ false → api.width b ≤ value c
    outside h = ground arith

    left-Yields :
        value c < 2 ^ 64
        → Yields api a value laws others
            (shift_left api a b c)
            (binary_word others int_left (word_of api value b) (word_of api value c))
    unfolding shift_left binary_word
    left-Yields e = elim (Bool-cases (ltb (value c) (api.width b))) [
      | inl inside ↦
          let run : shift_left api a b c ≡ ok_of api a (a.checked_shl (value c) b) =
            ground (arith, laws.try_to_u64_value c e) in
          let (z, p, whole, v) =
            reduced (a.checked_shl (value c) b) (λ m. value b * 2 ^ value c % m)
              (laws.checked_shl-Gives (value c) b (ltb→lt (value c) (api.width b) inside)) in
          (z, run ∙ p, whole, v)
      | inr out ↦
          let (whole, v) =
            stands api a value laws others (a.zero_of (api.width b)) (api.width b)
              (byte_size_from (api.width b)) 0 (laws.zero_of-Stands (api.width b) h.1) h.0
              bytes-pos in
          (
            a.zero_of (api.width b),
            ground (arith, laws.try_to_u64_value c e),
            whole,
            v
                ∙ ap (word (byte_size_from (api.width b))) (
                    sym (shifted_left_out (value b) (api.width b) (value c) (outside out))
                    ∙ ap (λ m. value b * 2 ^ value c % m) size),
          )
    ]

    right-Yields :
        value c < 2 ^ 64
        → Yields api a value laws others
            (shift_right api a b c)
            (binary_word others int_right (word_of api value b) (word_of api value c))
    unfolding shift_right binary_word
    right-Yields e = elim (Bool-cases (ltb (value c) (api.width b))) [
      | inl inside ↦
          let run : shift_right api a b c ≡ ok_of api a (a.checked_lshr (value c) b) =
            ground (arith, laws.try_to_u64_value c e) in
          let (z, p, whole, v) =
            reduced (a.checked_lshr (value c) b) (λ m. value b / 2 ^ value c)
              (laws.checked_lshr-Gives (value c) b (ltb→lt (value c) (api.width b) inside)) in
          (z, run ∙ p, whole, v)
      | inr out ↦
          let (whole, v) =
            stands api a value laws others (a.zero_of (api.width b)) (api.width b)
              (byte_size_from (api.width b)) 0 (laws.zero_of-Stands (api.width b) h.1) h.0
              bytes-pos in
          (
            a.zero_of (api.width b),
            ground (arith, laws.try_to_u64_value c e),
            whole,
            v
                ∙ ap (word (byte_size_from (api.width b))) (
                    sym (
                      shifted_right_out (value b) (api.width b) (value c) (laws.value-lt b)
                        (outside out))),
          )
    ]

    equality-Yields :
        (expected u : Bool)
        → (if value b == value c then expected else not expected) ≡ u
        → byte_size_from (api.width b) ≡ byte_size_from (api.width c)
        → Yields api a value laws others (equality api a expected b c) (truth u)
    equality-Yields expected u f e =
        let w : api.width b ≡ api.width c = same_width e in
        runs api a value laws others (equality api a expected b c)
          (if value b == value c then expected else not expected) u
          (ground (arith, w, laws.equal_value b c w)) f

    -- A test of the numbers in the order of the integers.
    ordered :
        (test : ℕ → ℕ → Bool)
        → byte_size_from (api.width b) ≡ byte_size_from (api.width c)
        → some (
            test
              (signed_order (2 ^ api.width b) (value b))
              (signed_order (2 ^ api.width b) (value c)))
          ≡ some (test (order (word_of api value b)) (order (word_of api value c)))
    unfolding order
    ordered test e =
        ap₂ (λ m m'. some (test (signed_order m (value b)) (signed_order m' (value c)))) size
          (size ∙ ap modulus e)

  -- For the operations without a multiplication, division, signed shift, signed borrow or float, and
  -- operands of whole bytes whose sizes fit the operation: `bin_op` returns a bitvector whose word is
  -- what P-Code says of the words of the operands.
  pub bin_op_bitvector-Yields :
      (op : BinOpType) (b c : api.Bitvector)
      → implemented op ≡ true
      → IsWhole api b
      → IsWhole api c
      → Operands op (word_of api value b) (word_of api value c)
      → Yields api a value laws others
          (bin_op_bitvector api a b op c)
          (binary_word others op (word_of api value b) (word_of api value c))
  unfolding bin_op_bitvector binary_word Operands plus minus
  bin_op_bitvector-Yields piece b c i h k t = piece-Yields b c h k
  bin_op_bitvector-Yields int_add b c i h k t =
      reduced b c h k (a.checked_add b c) (λ m. (value b + value c) % m)
        (laws.checked_add-Gives b c (same_width b c h k t))
  bin_op_bitvector-Yields int_sub b c i h k t =
      reduced b c h k (a.checked_sub b c) (λ m. (value b + (m - value c)) % m)
        (laws.checked_sub-Gives b c (same_width b c h k t))
  bin_op_bitvector-Yields int_carry b c i h k t = carry-Yields b c h k t
  bin_op_bitvector-Yields int_s_carry b c i h k t = s_carry-Yields b c h k t
  bin_op_bitvector-Yields int_left b c i h k t = left-Yields b c h k t
  bin_op_bitvector-Yields int_right b c i h k t = right-Yields b c h k t
  bin_op_bitvector-Yields int_and b c i h k t =
      reduced b c h k (a.checked_bitand b c) (λ m. bit_and (value b) (value c))
        (laws.checked_bitand-Gives b c (same_width b c h k t))
  bin_op_bitvector-Yields int_or b c i h k t =
      reduced b c h k (a.checked_bitor b c) (λ m. bit_or (value b) (value c))
        (laws.checked_bitor-Gives b c (same_width b c h k t))
  bin_op_bitvector-Yields int_x_or b c i h k t =
      reduced b c h k (a.checked_bitxor b c) (λ m. bit_xor (value b) (value c))
        (laws.checked_bitxor-Gives b c (same_width b c h k t))
  bin_op_bitvector-Yields bool_and b c i h k t =
      subst
        (λ n.
          Yields api a value laws others (ok_of api a (a.checked_bitand b c))
            (word n (bit_and (value b) (value c))))
        t.0.0
        (reduced b c h k (a.checked_bitand b c) (λ m. bit_and (value b) (value c))
          (laws.checked_bitand-Gives b c (same_width b c h k (t.0.0 ∙ sym t.1.0))))
  bin_op_bitvector-Yields bool_or b c i h k t =
      subst
        (λ n.
          Yields api a value laws others (ok_of api a (a.checked_bitor b c))
            (word n (bit_or (value b) (value c))))
        t.0.0
        (reduced b c h k (a.checked_bitor b c) (λ m. bit_or (value b) (value c))
          (laws.checked_bitor-Gives b c (same_width b c h k (t.0.0 ∙ sym t.1.0))))
  bin_op_bitvector-Yields bool_x_or b c i h k t =
      subst
        (λ n.
          Yields api a value laws others (ok_of api a (a.checked_bitxor b c))
            (word n (bit_xor (value b) (value c))))
        t.0.0
        (reduced b c h k (a.checked_bitxor b c) (λ m. bit_xor (value b) (value c))
          (laws.checked_bitxor-Gives b c (same_width b c h k (t.0.0 ∙ sym t.1.0))))
  bin_op_bitvector-Yields int_equal b c i h k t = equality-Yields b c h k true _ (ground arith) t
  bin_op_bitvector-Yields int_not_equal b c i h k t =
      equality-Yields b c h k false _ (ground arith) t
  bin_op_bitvector-Yields int_less b c i h k t =
      compared api a value laws others (a.checked_ult b c) (ltb (value b) (value c))
        (laws.checked_ult_value b c (same_width b c h k t))
  bin_op_bitvector-Yields int_less_equal b c i h k t =
      compared api a value laws others (a.checked_ule b c) (leb (value b) (value c))
        (laws.checked_ule_value b c (same_width b c h k t))
  bin_op_bitvector-Yields int_s_less b c i h k t =
      compared api a value laws others (a.checked_slt b c) _
        (laws.checked_slt_value b c (same_width b c h k t) ∙ ordered b c h k ltb t)
  bin_op_bitvector-Yields int_s_less_equal b c i h k t =
      compared api a value laws others (a.checked_sle b c) _
        (laws.checked_sle_value b c (same_width b c h k t) ∙ ordered b c h k leb t)
  bin_op_bitvector-Yields _ b c i h k t = ground arith
