-- ===== src/AbstractDomain/Interval/Signs.antt =====
-- How the sign of a bitvector relates its integer to its number, and the constants 0 and -1.
use fkie_cad_cwe_checker.AbstractDomain.Interval.Represented.{
  integer-sum, integer-difference, integer-range, integer-width,
}
use native.Mathlib.Nat.{pow-le-pow_right, mod-eq_of_lt}
use fkie_cad_cwe_checker.Prelude.{
  ℕ, ◌+◌, ◌-◌, ◌*◌, ◌^◌, ◌/◌, ◌<◌, ◌≤◌, ◌≡◌, ◌⊎◌, ap, ◌∙◌, arith, inl, inr, true, false,
  below_or_not, some, ◌%◌, sym,
}
use mathlib.Core.Path.{subst}
use fkie_cad_cwe_checker.Prelude.Powers.{pow_even, pow_pos}
use fkie_cad_cwe_checker.Apint.{ApInt}
use fkie_cad_cwe_checker.Apint.Arithmetic.{
  Arithmetic, IsArithmetic, is_negative, signed_order, complement, Stands,
}
use fkie_cad_cwe_checker.IntermediateRepresentation.Bitvector.Overflow.{integer}

order_sides :
    (m half x : ℕ)
    → m ≡ 2 * half
    → ((is_negative m x ≡ true) × (signed_order m x ≡ x) × (half ≤ x))
      ⊎ ((is_negative m x ≡ false) × (signed_order m x ≡ x + m) × (x < half))
unfolding is_negative signed_order
order_sides m half x e = elim (below_or_not x half) [
  | inl low ↦ inr (ground arith, ground arith, low)
  | inr high ↦ inl (ground arith, ground arith, high)
]

module _ (api : ApInt) (a : Arithmetic api) (value : api.Bitvector → ℕ)
    (laws : IsArithmetic api a value) where
  -- A bitvector of this width is negative or not, which says how its integer and its number are related.
  abbrev pub Sides : ℕ → api.Bitvector → Type 0
  Sides w b =
      ((a.sign_bit b ≡ true) × (integer api value b ≡ value b) × (2 ^ w / 2 ≤ value b))
      ⊎ ((a.sign_bit b ≡ false) × (integer api value b ≡ value b + 2 ^ w) × (value b < 2 ^ w / 2))

  pub sides : (w : ℕ) (b : api.Bitvector) → api.width b ≡ w → 0 < w → Sides w b × (value b < 2 ^ w)
  sides w b e p =
      let sign : a.sign_bit b ≡ is_negative (2 ^ w) (value b) =
        laws.sign_bit_value b ∙ ap (λ v. is_negative (2 ^ v) (value b)) e in
      let at = integer-width api a value laws b w e in
      let below : value b < 2 ^ w = subst (λ v. value b < 2 ^ v) e (laws.value-lt b) in
      elim (order_sides (2 ^ w) (2 ^ w / 2) (value b) (pow_even w p)) [
        | inl (n, o, h) ↦ (inl (sign ∙ n, at ∙ o, h), below)
        | inr (n, o, h) ↦ (inr (sign ∙ n, at ∙ o, h), below)
      ]

  pub integer-zero : (w : ℕ) → 0 < w → integer api value (a.zero_of w) ≡ 2 ^ w
  integer-zero w p =
      let zero = laws.zero_of-Stands w p in
      elim (sides w (a.zero_of w) zero.0 p).0 [
        | inl (n, at, high) ↦ absurd (omega (arith, zero.1, high, pow_even w p, pow_pos w))
        | inr (n, at, low) ↦ omega (arith, at, zero.1)
      ]

  pub minus_one-Stands : (w : ℕ) → 0 < w → Stands api value (a.neg (a.one_of w)) w (2 ^ w - 1)
  minus_one-Stands w p =
      let one = laws.one_of-Stands w p in
      let (width, number) = laws.neg-Stands (a.one_of w) in
      (
        width ∙ one.0,
        number
            ∙ ap (λ v. complement (2 ^ v) (value (a.one_of w))) one.0
            ∙ ap (complement (2 ^ w)) one.1
            ∙ mod-eq_of_lt (omega (arith, pow_pos w)),
      )

  pub integer-minus_one : (w : ℕ) → 0 < w → integer api value (a.neg (a.one_of w)) + 1 ≡ 2 ^ w
  integer-minus_one w p =
      let last = minus_one-Stands w p in
      elim (sides w (a.neg (a.one_of w)) last.0 p).0 [
        | inl (n, at, high) ↦ omega (arith, at, last.1, pow_pos w)
        | inr (n, at, low) ↦ absurd (omega (arith, last.1, low, pow_even w p, pow_pos w))
      ]

  pub integer-one : (w : ℕ) → 2 ≤ w → integer api value (a.one_of w) ≡ 1 + 2 ^ w
  integer-one w p =
      let one = laws.one_of-Stands w (omega (arith, p)) in
      let large : 2 ^ 2 ≤ 2 ^ w = pow-le-pow_right (omega arith) p in
      elim (sides w (a.one_of w) one.0 (omega (arith, p))).0 [
        | inl (n, at, high) ↦
            absurd (omega (arith, one.1, high, large, pow_even w (omega (arith, p))))
        | inr (n, at, low) ↦ omega (arith, at, one.1)
      ]

  -- Bitvectors of one width with the same integer have the same number.
  pub same_integer :
      (b c : api.Bitvector) (w : ℕ)
      → api.width b ≡ w
      → api.width c ≡ w
      → 0 < w
      → integer api value b ≡ integer api value c
      → value b ≡ value c
  same_integer b c w eb ec p h =
      let (side, below) = sides w b eb p in
      let (side', below') = sides w c ec p in
      elim side [
        | inl (n, at, high) ↦ elim side' [
          | inl (n', at', high') ↦ omega (arith, at, at', h)
          | inr (n', at', low') ↦ absurd (omega (arith, at, at', h, below))
        ]
        | inr (n, at, low) ↦ elim side' [
          | inl (n', at', high') ↦ absurd (omega (arith, at, at', h, below'))
          | inr (n', at', low') ↦ omega (arith, at, at', h)
        ]
      ]

  pub next_integer :
      (b c : api.Bitvector) (w : ℕ)
      → api.width b ≡ w
      → api.width c ≡ w
      → 2 ≤ w
      → integer api value b < integer api value c
      → (d : api.Bitvector) × ((a.checked_add b (a.one_of w) ≡ some d)
          × ((api.width d ≡ w) × (integer api value d ≡ integer api value b + 1)))
  next_integer b c w eb ec p h =
      let one = laws.one_of-Stands w (omega (arith, p)) in
      let at_one = integer-one w p in
      let (d, q, s) = laws.checked_add-Gives b (a.one_of w) (eb ∙ sym one.0) in
      let (low, high) = integer-range api a value laws b w eb (omega (arith, p)) in
      let (low', high') = integer-range api a value laws c w ec (omega (arith, p)) in
      let stands : Stands api value d w ((value b + value (a.one_of w)) % 2 ^ w) =
        subst (λ v. Stands api value d v ((value b + value (a.one_of w)) % 2 ^ v)) eb s in
      let sum =
        integer-sum api a value laws b (a.one_of w) d w eb one.0 (omega (arith, p)) stands
          (omega (arith, at_one, low)) (omega (arith, at_one, h, high')) in
      (d, (q, (stands.0, omega (arith, sum, at_one))))

  pub previous_integer :
      (b c : api.Bitvector) (w : ℕ)
      → api.width b ≡ w
      → api.width c ≡ w
      → 2 ≤ w
      → integer api value c < integer api value b
      → (d : api.Bitvector) × ((a.checked_sub b (a.one_of w) ≡ some d)
          × ((api.width d ≡ w) × (integer api value d + 1 ≡ integer api value b)))
  previous_integer b c w eb ec p h =
      let one = laws.one_of-Stands w (omega (arith, p)) in
      let at_one = integer-one w p in
      let (d, q, s) = laws.checked_sub-Gives b (a.one_of w) (eb ∙ sym one.0) in
      let (low, high) = integer-range api a value laws b w eb (omega (arith, p)) in
      let (low', high') = integer-range api a value laws c w ec (omega (arith, p)) in
      let stands : Stands api value d w ((value b + (2 ^ w - value (a.one_of w))) % 2 ^ w) =
        subst (λ v. Stands api value d v ((value b + (2 ^ v - value (a.one_of w))) % 2 ^ v)) eb s in
      let difference =
        integer-difference api a value laws b (a.one_of w) d w eb one.0 (omega (arith, p)) stands
          (omega (arith, at_one, h, low')) (omega (arith, at_one, high)) in
      (d, (q, (stands.0, omega (arith, difference, at_one))))
