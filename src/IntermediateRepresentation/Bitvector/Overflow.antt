-- ===== src/IntermediateRepresentation/Bitvector/Overflow.antt =====
-- The overflow checks of sums and differences, and the flag of a signed borrow, of
-- src/cwe_checker_lib/src/intermediate_representation/bitvector.rs.
use fkie_cad_cwe_checker.Prelude.{
  ℕ, ◌+◌, ◌-◌, ◌*◌, ◌/◌, ◌%◌, ◌^◌, ◌<◌, ◌≤◌, ◌≡◌, ap, sym, ◌∙◌, Bool, true, false, not, leb, some,
  none, ◌⊎◌, inl, inr, Bool-cases, arith, if◌then◌else◌,
}
use mathlib.Core.Path.{subst}
use fkie_cad_cwe_checker.Prelude.Outcome.{ok}
use fkie_cad_cwe_checker.Prelude.Powers.{sum_cases, difference_cases, pow_even}
use fkie_cad_cwe_checker.Apint.{ApInt}
use fkie_cad_cwe_checker.Apint.Arithmetic.{Arithmetic, IsArithmetic, is_negative, signed_order}
use fkie_cad_cwe_checker.IntermediateRepresentation.Bitvector.{
  signed_add_overflow_checked, signed_sub_overflow_checked, signed_borrow, flag,
}

-- The order of a result, in whose scale the integer 0 is `m`, is that of the exact sum of two integers.
sum_order :
    (m half x y d : ℕ)
    → x < m
    → y < m
    → m ≡ 2 * half
    → d ≡ (x + y) % m
    → (if is_negative m y
        then leb (signed_order m x) (signed_order m d)
        else not (leb (signed_order m x) (signed_order m d)))
      ≡ false
    → signed_order m d + m ≡ signed_order m x + signed_order m y
unfolding is_negative signed_order
sum_order m half x y d h k e q g = ground (arith, sum_cases m x y h k)

sum_overflow :
    (m half x y d : ℕ)
    → x < m
    → y < m
    → m ≡ 2 * half
    → d ≡ (x + y) % m
    → (if is_negative m y
        then leb (signed_order m x) (signed_order m d)
        else not (leb (signed_order m x) (signed_order m d)))
      ≡ true
    → (signed_order m x + signed_order m y < m + half)
      ⊎ (m + m + half ≤ signed_order m x + signed_order m y)
unfolding is_negative signed_order
sum_overflow m half x y d h k e q g = ground (arith, sum_cases m x y h k)

difference_order :
    (m half x y d : ℕ)
    → x < m
    → y < m
    → m ≡ 2 * half
    → d ≡ (x + (m - y)) % m
    → (if is_negative m y
        then leb (signed_order m d) (signed_order m x)
        else not (leb (signed_order m d) (signed_order m x)))
      ≡ false
    → signed_order m d + signed_order m y ≡ signed_order m x + m
unfolding is_negative signed_order
difference_order m half x y d h k e q g = ground (arith, difference_cases m x y h k)

difference_overflow :
    (m half x y d : ℕ)
    → x < m
    → y < m
    → m ≡ 2 * half
    → d ≡ (x + (m - y)) % m
    → (if is_negative m y
        then leb (signed_order m d) (signed_order m x)
        else not (leb (signed_order m d) (signed_order m x)))
      ≡ true
    → (signed_order m x + m < signed_order m y + half)
      ⊎ (signed_order m y + m + half ≤ signed_order m x + m)
unfolding is_negative signed_order
difference_overflow m half x y d h k e q g = ground (arith, difference_cases m x y h k)

negative_difference :
    (m half x y d : ℕ)
    → x < m
    → y < m
    → m ≡ 2 * half
    → d ≡ (x + (m - y)) % m
    → is_negative m x ≡ true
    → is_negative m y ≡ true
    → x < y
    → is_negative m d ≡ true
unfolding is_negative
negative_difference m half x y d h k e q n n' l = ground (arith, difference_cases m x y h k)

negative_in_range :
    (m half x y : ℕ)
    → x < m
    → y < m
    → m ≡ 2 * half
    → is_negative m x ≡ true
    → is_negative m y ≡ true
    → x < y
    → (signed_order m x + m < signed_order m y + half)
      ⊎ (signed_order m y + m + half ≤ signed_order m x + m)
    → ⊥
unfolding is_negative signed_order
negative_in_range m half x y h k e n n' l o = ground arith

-- The integer of a bitvector, counted from minus 2 ^ width: the smallest one is the half of it.
unfoldable pub integer : (api : ApInt) → (api.Bitvector → ℕ) → api.Bitvector → ℕ
integer api value b = signed_order (2 ^ api.width b) (value b)

abbrev pub half : (api : ApInt) → api.Bitvector → ℕ
half api b = 2 ^ api.width b / 2

module _ (api : ApInt) (value : api.Bitvector → ℕ) where
  abbrev pub SumExact : api.Bitvector → api.Bitvector → api.Bitvector → Type 0
  SumExact b c r =
      (api.width r ≡ api.width b)
      × (integer api value r + 2 ^ api.width b ≡ integer api value b + integer api value c)

  abbrev pub SumOutside : api.Bitvector → api.Bitvector → Type 0
  SumOutside b c =
      (integer api value b + integer api value c < 2 ^ api.width b + half api b)
      ⊎ (2 ^ api.width b + 2 ^ api.width b + half api b ≤ integer api value b + integer api value c)

  abbrev pub DifferenceExact : api.Bitvector → api.Bitvector → api.Bitvector → Type 0
  DifferenceExact b c r =
      (api.width r ≡ api.width b)
      × (integer api value r + integer api value c ≡ integer api value b + 2 ^ api.width b)

  abbrev pub DifferenceOutside : api.Bitvector → api.Bitvector → Type 0
  DifferenceOutside b c =
      (integer api value b + 2 ^ api.width b < integer api value c + half api b)
      ⊎ (integer api value c + 2 ^ api.width b + half api b ≤ integer api value b + 2 ^ api.width b)

module _ (api : ApInt) (a : Arithmetic api) (value : api.Bitvector → ℕ) where
  -- Either the sum is returned, as an exact sum of integers, or it is outside of the integers of the width.
  abbrev pub SumChecked : api.Bitvector → api.Bitvector → Type 0
  SumChecked b c =
      ((r : api.Bitvector) × (signed_add_overflow_checked api a b c ≡ ok (some r))
        × SumExact api value b c r)
      ⊎ ((signed_add_overflow_checked api a b c ≡ ok none) × SumOutside api value b c)

  -- Either the difference is returned, as an exact difference of integers, or it is outside of the
  -- integers of the width.
  abbrev pub DifferenceChecked : api.Bitvector → api.Bitvector → Type 0
  DifferenceChecked b c =
      ((r : api.Bitvector) × (signed_sub_overflow_checked api a b c ≡ ok (some r))
        × DifferenceExact api value b c r)
      ⊎ ((signed_sub_overflow_checked api a b c ≡ ok none) × DifferenceOutside api value b c)

module _ (api : ApInt) (a : Arithmetic api) (value : api.Bitvector → ℕ)
    (laws : IsArithmetic api a value) where
  module _ (b c : api.Bitvector) (same : api.width b ≡ api.width c) (p : 0 < api.width b) where
    c-lt : value c < 2 ^ api.width b
    c-lt = subst (λ w. value c < 2 ^ w) (sym same) (laws.value-lt c)

    sign_c : a.sign_bit c ≡ is_negative (2 ^ api.width b) (value c)
    sign_c = laws.sign_bit_value c ∙ ap (λ w. is_negative (2 ^ w) (value c)) (sym same)

    at_width :
        (x : api.Bitvector)
        → api.width x ≡ api.width b
        → integer api value x ≡ signed_order (2 ^ api.width b) (value x)
    unfolding integer
    at_width x e = ap (λ w. signed_order (2 ^ w) (value x)) e

    -- For bitvectors of the same width: `signed_add_overflow_checked` does not panic, and returns the
    -- exact sum of the signed integers, or nothing if that sum is outside of the integers of the width.
    pub signed_add_overflow_checked-SumChecked : SumChecked api a value b c
    unfolding signed_add_overflow_checked integer
    signed_add_overflow_checked-SumChecked =
        let m : ℕ = 2 ^ api.width b in
        let (x, q, s) = laws.checked_add-Gives b c same in
        let order : a.checked_sle b x
            ≡ some (leb (signed_order m (value b)) (signed_order m (value x))) =
          laws.checked_sle_value b x (sym s.0) in
        let ix : integer api value x ≡ signed_order m (value x) = at_width x s.0 in
        let ic : integer api value c ≡ signed_order m (value c) = at_width c (sym same) in
        let grows : Bool = leb (signed_order m (value b)) (signed_order m (value x)) in
        elim (Bool-cases (if is_negative m (value c) then grows else not grows)) [
          | inl overflow ↦ inr (
            ground (arith, q, order, sign_c),
            subst
                (λ n.
                  (signed_order m (value b) + n < m + half api b)
                  ⊎ (m + m + half api b ≤ signed_order m (value b) + n))
                (sym ic)
                (sum_overflow m (half api b) (value b) (value c) (value x) (laws.value-lt b) c-lt
                  (pow_even (api.width b) p) s.1 overflow),
          )
          | inr fits ↦ inl (
            x,
            ground (arith, q, order, sign_c),
            (
              s.0,
              ap (λ n. n + m) ix
                  ∙ sum_order m (half api b) (value b) (value c) (value x) (laws.value-lt b) c-lt
                      (pow_even (api.width b) p) s.1 fits
                  ∙ ap (λ n. signed_order m (value b) + n) (sym ic),
            ),
          )
        ]

    -- For bitvectors of the same width: `signed_sub_overflow_checked` does not panic, and returns the
    -- exact difference of the signed integers, or nothing if that difference is outside of the integers
    -- of the width.
    pub signed_sub_overflow_checked-DifferenceChecked : DifferenceChecked api a value b c
    unfolding signed_sub_overflow_checked integer
    signed_sub_overflow_checked-DifferenceChecked =
        let m : ℕ = 2 ^ api.width b in
        let (x, q, s) = laws.checked_sub-Gives b c same in
        let order : a.checked_sle x b
            ≡ some (leb (signed_order m (value x)) (signed_order m (value b))) =
          laws.checked_sle_value x b s.0
          ∙ ap (λ w. some (leb (signed_order (2 ^ w) (value x)) (signed_order (2 ^ w) (value b))))
              s.0 in
        let ix : integer api value x ≡ signed_order m (value x) = at_width x s.0 in
        let ic : integer api value c ≡ signed_order m (value c) = at_width c (sym same) in
        let shrinks : Bool = leb (signed_order m (value x)) (signed_order m (value b)) in
        elim (Bool-cases (if is_negative m (value c) then shrinks else not shrinks)) [
          | inl overflow ↦ inr (
            ground (arith, q, order, sign_c),
            subst
                (λ n.
                  (signed_order m (value b) + m < n + half api b)
                  ⊎ (n + m + half api b ≤ signed_order m (value b) + m))
                (sym ic)
                (difference_overflow m (half api b) (value b) (value c) (value x) (laws.value-lt b)
                  c-lt (pow_even (api.width b) p) s.1 overflow),
          )
          | inr fits ↦ inl (
            x,
            ground (arith, q, order, sign_c),
            (
              s.0,
              ap (λ n. n + integer api value c) ix
                  ∙ ap (λ n. signed_order m (value x) + n) ic
                  ∙ difference_order m (half api b) (value b) (value c) (value x) (laws.value-lt b)
                      c-lt (pow_even (api.width b) p) s.1 fits,
            ),
          )
        ]

    -- For two negative bitvectors of the same width of which the first is the smaller one, the code of
    -- IntSBorrow sets the flag of an overflow, although the difference does not overflow:
    -- `signed_sub_overflow_checked` returns it exactly.
    pub signed_borrow-negative :
        is_negative (2 ^ api.width b) (value b) ≡ true
        → is_negative (2 ^ api.width b) (value c) ≡ true
        → value b < value c
        → (signed_borrow api a b c ≡ flag api a true)
          × ((r : api.Bitvector) × (signed_sub_overflow_checked api a b c ≡ ok (some r))
              × (integer api value r + integer api value c ≡ integer api value b + 2 ^ api.width b))
    unfolding signed_borrow integer
    signed_borrow-negative n n' l =
        let (x, q, s) = laws.checked_sub-Gives b c same in
        let sign_x : a.sign_bit x ≡ true =
          laws.sign_bit_value x
          ∙ ap (λ w. is_negative (2 ^ w) (value x)) s.0
          ∙ negative_difference (2 ^ api.width b) (half api b) (value b) (value c) (value x)
              (laws.value-lt b) c-lt (pow_even (api.width b) p) s.1 n n' l in
        let ic : integer api value c ≡ signed_order (2 ^ api.width b) (value c) =
          at_width c (sym same) in
        (
          ground (arith, q, sign_x, sign_c, n', laws.is_positive_false b n),
          elim signed_sub_overflow_checked-DifferenceChecked [
            | inl (r, run, (w, e)) ↦ (r, run, e)
            | inr (run, outside) ↦ absurd (
                negative_in_range (2 ^ api.width b) (half api b) (value b) (value c)
                  (laws.value-lt b) c-lt (pow_even (api.width b) p) n n' l
                  (subst
                    (λ k.
                      (integer api value b + 2 ^ api.width b < k + half api b)
                      ⊎ (k + 2 ^ api.width b + half api b ≤ integer api value b + 2 ^ api.width b))
                    ic outside))
          ],
        )
