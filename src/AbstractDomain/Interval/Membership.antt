-- ===== src/AbstractDomain/Interval/Membership.antt =====
-- `contains` and `int_2_comp` of
-- src/cwe_checker_lib/src/abstract_domain/interval/simple_interval.rs.
use fkie_cad_cwe_checker.Prelude.Powers.{difference_cases, pow_even}
use fkie_cad_cwe_checker.AbstractDomain.Interval.Sound.{difference_of_multiples}
use fkie_cad_cwe_checker.AbstractDomain.Interval.Represented.{
  integer-signed_min_value, new_top-Represents, Strides, Represents, integer-width,
}
use fkie_cad_cwe_checker.IntermediateRepresentation.Bitvector.{un_op_bitvector, as_bit_length}
use fkie_cad_cwe_checker.IntermediateRepresentation.Bitvector.Yields.{IsWhole}
use fkie_cad_cwe_checker.IntermediateRepresentation.Expression.UnOpType.{int2_comp}
use fkie_cad_cwe_checker.AbstractDomain.Interval.{
  int_2_comp, new_top, bytesize, strided, Strided, contains,
}
use fkie_cad_cwe_checker.Apint.{byte_size_from, ApInt}
use fkie_cad_cwe_checker.Prelude.{
  ℕ, zero, suc, ◌+◌, ◌*◌, ◌/◌, ◌%◌, ◌^◌, ◌<◌, ◌≤◌, ◌≡◌, ◌↔◌, ◌==◌, refl, ap, sym, ◌∙◌, arith, some,
  inl, inr, leb, ltb, Bool, true, false, ◌&&◌, Bool-cases, below_or_not, ◌-◌,
}
use mathlib.Core.Path.{subst}
use native.Mathlib.Nat.{div-add-mod, mul-mod_left, pow-le-pow_right}
use fkie_cad_cwe_checker.Prelude.Outcome.{Outcome, ok}
use fkie_cad_cwe_checker.Apint.Arithmetic.{
  Arithmetic, IsArithmetic, is_negative, signed_order, complement,
}
use fkie_cad_cwe_checker.Apint.Signed.{Bounds, IsBounds, Gcd}
use fkie_cad_cwe_checker.IntermediateRepresentation.Bitvector.Overflow.{integer}
use fkie_cad_cwe_checker.AbstractDomain.Interval.MergedStrides.{
  sle_integer, difference_value, greater-integer,
}

factor-pos : (k s d : ℕ) → d ≡ k * s → 0 < d → 0 < s
factor-pos k zero d e p = absurd (grind arith)
factor-pos k (suc s) d e p = omega arith

-- The test of the stride decides whether `n` is reached from another number `start`.
stride_test :
    (start end stride d n : ℕ)
    → start + d ≡ n
    → n ≤ end
    → 0 < d
    → ((ltb 0 stride && d % stride == 0) ≡ true) ↔ Strides start end stride n
stride_test start end stride d n e h p = (
  (λ t. (h, (d / stride, grind (arith, div-add-mod d stride)))),
  (λ s.
      let (k, f) = s.1 in
      let multiple : d ≡ k * stride = omega arith in
      let rest : d % stride ≡ 0 = ap (λ x. x % stride) multiple ∙ mul-mod_left k stride in
      ground arith),
)

same_number : (m x y : ℕ) → x < m → y < m → signed_order m x ≡ signed_order m y → x ≡ y
unfolding is_negative signed_order
same_number m x y h k e = ground arith

-- The integers of a number and of its complement add up to twice the place of 0.
complement_order :
    (m half x : ℕ)
    → x < m
    → m ≡ 2 * half
    → half < signed_order m x
    → signed_order m (complement m x) + signed_order m x ≡ 2 * m
unfolding is_negative signed_order
complement_order m half x h e p = ground (arith, difference_cases m 0 x (omega arith) h)

-- What lies at strides below the end is reflected to what lies at strides above the start.
reflected-Strides :
    (m is ie s ib rs re id : ℕ)
    → Strides is ie s ib
    → Strides is ie s ie
    → rs + ie ≡ 2 * m
    → re + is ≡ 2 * m
    → id + ib ≡ 2 * m
    → Strides rs re s id
reflected-Strides m is ie s ib rs re id x last p q r =
    let (below, (k, z)) = x in
    let (reached, (n, z')) = last in
    (
      omega (arith, z, q, r),
      (
        n - k,
        omega (arith, z, z', p, r, difference_of_multiples k n s (omega (arith, below, z, z'))),
      ),
    )

module _ (api : ApInt) (a : Arithmetic api) (value : api.Bitvector → ℕ)
    (laws : IsArithmetic api a value) (bounds : Bounds api) (limits : IsBounds api bounds value)
    (g : Gcd) where
  -- The run ends in a Boolean that decides `P`.
  abbrev pub Decides : Outcome Bool → Type 0 → Type 0
  Decides run P = (t : Bool) × ((run ≡ ok t) × ((t ≡ true) ↔ P))

  abbrev sle :
      (b c : api.Bitvector)
      → api.width b ≡ api.width c
      → a.checked_sle b c ≡ some (leb (integer api value b) (integer api value c))
  sle = sle_integer api a value laws bounds limits g

  not_same :
      (c b : api.Bitvector) (d : ℕ)
      → api.width c ≡ api.width b
      → a.equal c b ≡ false
      → integer api value c + d ≡ integer api value b
      → 0 < d
  not_same c b d w differs e = elim (below_or_not 0 d) [
    | inl h ↦ h
    | inr h ↦
        let m : ℕ = 2 ^ api.width b in
        let ic = integer-width api a value laws c (api.width b) w in
        let ib = integer-width api a value laws b (api.width b) refl in
        let same : value c ≡ value b =
          same_number m (value c) (value b) (subst (λ v. value c < 2 ^ v) w (laws.value-lt c))
            (laws.value-lt b) (omega (arith, ic, ib, e, h)) in
        absurd (ground (arith, laws.equal_value c b w, same))
  ]

  within :
      (i : Strided api a bounds g) (b : api.Bitvector)
      → 0 < api.width i.start
      → api.width i.end ≡ api.width i.start
      → api.width b ≡ api.width i.start
      → api.width b ≤ 64
      → a.equal i.start b ≡ false
      → integer api value i.start ≤ integer api value b
      → integer api value b ≤ integer api value i.end
      → Decides (contains api a bounds g i b) (Represents api value i b)
  unfolding contains
  within i b p last w small differs above below =
      let (d, q, s) = laws.checked_sub-Gives b i.start w in
      let exact =
        difference_value api a value laws bounds limits g b i.start d w
          (subst (λ v. 0 < v) (sym w) p) s above in
      let wider : 2 ^ api.width b ≤ 2 ^ 64 = pow-le-pow_right (omega arith) small in
      let fits : value d < 2 ^ 64 = omega (arith, laws.value-lt d, ap (λ v. 2 ^ v) s.0, wider) in
      let apart : 0 < value d = not_same i.start b (value d) (sym w) differs exact in
      let decided =
        stride_test (integer api value i.start) (integer api value i.end) i.stride (value d)
          (integer api value b) exact below apart in
      let sle_start = sle i.start b (sym w) in
      let sle_end = sle b i.end (w ∙ sym last) in
      let u64 = laws.try_to_u64_value d fits in
      (
        (ltb 0 i.stride && value d % i.stride == 0),
        (
          ground (arith, sle_start, sle_end, q, u64),
          ((λ t. (w, decided.0 t)), (λ r. decided.1 r.1)),
        ),
      )

  -- For an interval that ends with one of its values, and a bitvector of the same width of at most 64
  -- bits: `contains` does not panic, and returns whether the interval stands for the bitvector.
  pub contains-Decides :
      (i : Strided api a bounds g) (b : api.Bitvector)
      → 0 < api.width i.start
      → Represents api value i i.end
      → api.width b ≡ api.width i.start
      → api.width b ≤ 64
      → Decides (contains api a bounds g i b) (Represents api value i b)
  unfolding contains
  contains-Decides i b p last w small = elim (Bool-cases (a.equal i.start b)) [
    | inl same ↦
        let at : i.start ≡ b = laws.equal_sound i.start b same in
        let number : integer api value b ≡ integer api value i.start =
          ap (integer api value) (sym at) in
        (
          true,
          (
            ground arith,
            (
              (λ t. (w, (omega (arith, number, last.1.1.1), (0, omega (arith, number))))),
              (λ r. refl),
            ),
          ),
        )
    | inr differs ↦ elim (below_or_not (integer api value b) (integer api value i.start)) [
      | inl low ↦ (
        false,
        (
          ground (arith, sle i.start b (sym w)),
          ((λ t. absurd (ground arith)), (λ r. absurd (omega (arith, r.1.1.1)))),
        ),
      )
      | inr above ↦ elim (below_or_not (integer api value i.end) (integer api value b)) [
        | inl high ↦ (
          false,
          (
            ground (arith, sle i.start b (sym w), sle b i.end (w ∙ sym last.0)),
            ((λ t. absurd (ground arith)), (λ r. absurd (omega (arith, r.1.0)))),
          ),
        )
        | inr below ↦ within i b p last.0 w small differs above below
      ]
    ]
  ]

  integer-neg :
      (b : api.Bitvector) (w : ℕ)
      → api.width b ≡ w
      → 0 < w
      → 2 ^ w / 2 < integer api value b
      → integer api value (a.neg b) + integer api value b ≡ 2 * 2 ^ w
  integer-neg b w e p h =
      let (width, number) = laws.neg-Stands b in
      let ib = integer-width api a value laws b w e in
      let id = integer-width api a value laws (a.neg b) w (width ∙ e) in
      let reduced : value (a.neg b) ≡ complement (2 ^ w) (value b) =
        number ∙ ap (λ v. complement (2 ^ v) (value b)) e in
      let exact =
        complement_order (2 ^ w) (2 ^ w / 2) (value b)
          (subst (λ v. value b < 2 ^ v) e (laws.value-lt b)) (pow_even w p)
          (omega (arith, ib, h)) in
      omega (arith, ib, id, ap (signed_order (2 ^ w)) reduced, exact)

  -- For an interval in whole bytes that ends with one of its values: `int_2_comp` does not panic, and its
  -- result has the two's complement that `un_op` computes of each bitvector that the interval stands
  -- for.
  pub int_2_comp-Represents :
      (i : Strided api a bounds g) (b : api.Bitvector)
      → IsWhole api i.start
      → Represents api value i i.end
      → Represents api value i b
      → (r : Strided api a bounds g) × ((d : api.Bitvector) × ((int_2_comp api a bounds g i ≡ ok r)
            × ((un_op_bitvector api a b int2_comp ≡ ok (some d)) × Represents api value r d)))
  unfolding int_2_comp un_op_bitvector
  int_2_comp-Represents i b whole last x =
      let w : ℕ = api.width i.start in
      let least : api.Bitvector =
        bounds.signed_min_value (as_bit_length (bytesize api a bounds g i)) in
      let p = whole.1 in
      let width : api.width least ≡ w =
        (limits.signed_min_value-Stands (as_bit_length (byte_size_from w))
          (omega (arith, whole.0, p))).0
        ∙ sym whole.0 in
      let lowest : integer api value least ≡ 2 ^ w / 2 =
        integer-signed_min_value api a value laws bounds limits g (as_bit_length (byte_size_from w))
          (omega (arith, whole.0, p))
        ∙ ap (λ v. 2 ^ v / 2) (sym whole.0) in
      let above = greater-integer api a value laws bounds limits g i.start least (sym width) in
      elim (below_or_not (integer api value least) (integer api value i.start)) [
        | inl h ↦ (
          strided api a bounds g (a.neg i.end) (a.neg i.start) i.stride,
          (
            a.neg b,
            (
              ground (arith, above),
              (
                refl,
                (
                  (laws.neg-Stands b).0 ∙ x.0 ∙ sym last.0 ∙ sym (laws.neg-Stands i.end).0,
                  reflected-Strides (2 ^ w) _ _ i.stride _ _ _ _ x.1 last.1
                      (integer-neg i.end w last.0 p (omega (arith, lowest, h, last.1.1.1)))
                      (integer-neg i.start w refl p (omega (arith, lowest, h)))
                      (integer-neg b w x.0 p (omega (arith, lowest, h, x.1.1.1))),
                ),
              ),
            ),
          ),
        )
        | inr h ↦ (
          new_top api a bounds g (bytesize api a bounds g i),
          (
            a.neg b,
            (
              ground (arith, above),
              (
                refl,
                new_top-Represents api a value laws bounds limits g (byte_size_from w) (a.neg b)
                    (omega (arith, whole.0, p)) ((laws.neg-Stands b).0 ∙ x.0 ∙ whole.0),
              ),
            ),
          ),
        )
      ]
