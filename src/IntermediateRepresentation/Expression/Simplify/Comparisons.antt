-- ===== src/IntermediateRepresentation/Expression/Simplify/Comparisons.antt =====
-- Equations between comparisons, differences and sums of words.
use mathlib.Core.Path.{ap₂, ◌∙◌, refl, subst}
use fkie_cad_cwe_checker.Prelude.Powers.{
  modulus_even, difference-difference, sum-sum, modulus, sum_cases, difference_cases,
}
use fkie_cad_cwe_checker.IntermediateRepresentation.Expression.Simplify.WordLaws.{word_path}
use fkie_cad_cwe_checker.IntermediateRepresentation.Expression.{int_s_borrow, int_sub}
use fkie_cad_cwe_checker.Prelude.{
  ◌/◌, not, ◌&&◌, false, ℕ, ◌+◌, ◌-◌, ◌*◌, ◌<◌, ◌≤◌, ◌≡◌, ap, sym, ◌∙◌, ◌⊎◌, inl, inr, Bool, ◌==◌,
  ltb, arith, if◌then◌else◌, ◌%◌, leb,
}
use fkie_cad_cwe_checker.Apint.Arithmetic.{is_negative, signed_order}
use fkie_cad_cwe_checker.IntermediateRepresentation.Expression.BinOpType.{
  int_equal, int_not_equal, int_less, int_s_less, int_less_equal, int_s_less_equal, bool_and,
  bool_or, int_s_borrow, int_sub,
}
use fkie_cad_cwe_checker.IntermediateRepresentation.Expression.Pcode.{
  Word, Others, binary_word, plus, minus, order, is_minus, truth, word,
}
use fkie_cad_cwe_checker.IntermediateRepresentation.Expression.Simplify.Typed.{Fits, SameSize}

-- A difference borrows from the modulus or not, and a sum is reduced once or not.
pub minus_cases :
    (x y : Word)
    → Fits x
    → Fits y
    → SameSize x y
    → ((y.bits ≤ x.bits) × (minus x y ≡ x.bits - y.bits))
      ⊎ ((x.bits < y.bits) × (minus x y ≡ x.bits + modulus x.size - y.bits))
unfolding minus
minus_cases x y h k e =
    difference_cases (modulus x.size) x.bits y.bits h (subst (λ n. y.bits < modulus n) (sym e) k)

pub plus_cases :
    (x y : Word)
    → Fits x
    → Fits y
    → SameSize x y
    → ((x.bits + y.bits < modulus x.size) × (plus x y ≡ x.bits + y.bits))
      ⊎ ((modulus x.size ≤ x.bits + y.bits) × (plus x y ≡ x.bits + y.bits - modulus x.size))
unfolding plus
plus_cases x y h k e =
    sum_cases (modulus x.size) x.bits y.bits h (subst (λ n. y.bits < modulus n) (sym e) k)

order-injective_at : (m a b : ℕ) → a < m → b < m → signed_order m a ≡ signed_order m b → a ≡ b
unfolding signed_order is_negative
order-injective_at m a b h k o = ground arith

-- The flags of a subtraction of numbers below an even modulus.
borrows : ℕ → ℕ → ℕ → ℕ → Bool
unfolding is_negative
borrows m a b d =
    if is_negative m a
    then (if is_negative m b then false else not (is_negative m d))
    else (is_negative m b && is_negative m d)

sign_borrow_at :
    (m half a b d : ℕ)
    → a < m
    → b < m
    → m ≡ 2 * half
    → ((b ≤ a) × (d ≡ a - b)) ⊎ ((a < b) × (d ≡ a + m - b))
    → (if ltb (signed_order m d) (signed_order m 0) then not (borrows m a b d) else borrows m a b d)
      ≡ ltb (signed_order m a) (signed_order m b)
unfolding signed_order is_negative borrows
sign_borrow_at m half a b d h k e (inl c) = ground arith
sign_borrow_at m half a b d h k e (inr c) = ground arith

pub difference-equal :
    (x y : Word) → Fits x → Fits y → SameSize x y → (minus x y == 0) ≡ (x.bits == y.bits)
difference-equal x y h k e = ground (arith, minus_cases x y h k e)

-- Words of the same size are equal when they stand for the same integer.
order-injective :
    (x y : Word) → Fits x → Fits y → SameSize x y → order x ≡ order y → x.bits ≡ y.bits
unfolding order signed_order is_negative
order-injective x y h k e o =
    order-injective_at (modulus x.size) x.bits y.bits h (subst (λ n. y.bits < modulus n) (sym e) k)
      (o ∙ ap (λ n. signed_order (modulus n) y.bits) (sym e))

unequal-truth :
    (b c r : Bool)
    → (if b then not c else c) ≡ r
    → truth (not ((if b then 1 else 0) == (if c then 1 else 0))) ≡ truth r
unequal-truth b c r h = ground arith

equal-truth :
    (b c : Bool) (n m : ℕ)
    → (if b then not c else c) ≡ ltb n m
    → truth ((if b then 1 else 0) == (if c then 1 else 0)) ≡ truth (leb m n)
equal-truth b c n m h = ground arith

module _ (others : Others) where
  pub zero-equal :
      (x y z : Word)
      → Fits y
      → Fits z
      → SameSize y z
      → x.bits ≡ 0
      → binary_word others int_equal x (binary_word others int_sub y z)
        ≡ binary_word others int_equal y z
  unfolding binary_word
  zero-equal x y z h k e o = ground (arith, minus_cases y z h k e)

  pub zero-not_equal :
      (x y z : Word)
      → Fits y
      → Fits z
      → SameSize y z
      → x.bits ≡ 0
      → binary_word others int_not_equal x (binary_word others int_sub y z)
        ≡ binary_word others int_not_equal y z
  unfolding binary_word
  zero-not_equal x y z h k e o = ground (arith, minus_cases y z h k e)

  pub less_or_equal :
      (x y : Word)
      → binary_word others bool_or
          (binary_word others int_less x y)
          (binary_word others int_equal x y)
        ≡ binary_word others int_less_equal x y
  unfolding binary_word
  less_or_equal x y = ground arith

  pub signed_less_or_equal :
      (x y : Word)
      → Fits x
      → Fits y
      → SameSize x y
      → binary_word others bool_or
          (binary_word others int_s_less x y)
          (binary_word others int_equal x y)
        ≡ binary_word others int_s_less_equal x y
  unfolding binary_word
  signed_less_or_equal x y h k e = ground (arith, order-injective x y h k e)

  pub less_equal_and_not :
      (x y : Word)
      → binary_word others bool_and
          (binary_word others int_less_equal x y)
          (binary_word others int_not_equal x y)
        ≡ binary_word others int_less x y
  unfolding binary_word
  less_equal_and_not x y = ground arith

  pub signed_less_equal_and_not :
      (x y : Word)
      → Fits x
      → Fits y
      → SameSize x y
      → binary_word others bool_and
          (binary_word others int_s_less_equal x y)
          (binary_word others int_not_equal x y)
        ≡ binary_word others int_s_less x y
  unfolding binary_word
  signed_less_equal_and_not x y h k e = ground (arith, order-injective x y h k e)

  pub unequal-swap :
      (x y : Word) → binary_word others int_not_equal y x ≡ binary_word others int_not_equal x y
  unfolding binary_word
  unequal-swap x y = ground arith

  pub equal-swap :
      (x y : Word) → binary_word others int_equal y x ≡ binary_word others int_equal x y
  unfolding binary_word
  equal-swap x y = ground arith

  -- The sign of the difference differs from the overflow flag exactly if the first is smaller.
  sign-unequal_at :
      (n a b : ℕ)
      → a < modulus n
      → b < modulus n
      → 0 < n
      → binary_word others int_not_equal
          (binary_word others int_s_less
            (binary_word others int_sub (word n a) (word n b))
            (word n 0))
          (binary_word others int_s_borrow (word n a) (word n b))
        ≡ binary_word others int_s_less (word n a) (word n b)
  unfolding binary_word is_minus borrows order
  sign-unequal_at n a b h k p =
      unequal-truth _ (borrows (modulus n) a b (minus (word n a) (word n b))) _ (
        sign_borrow_at (modulus n) (modulus n / 2) a b (minus (word n a) (word n b)) h k
          (modulus_even n p) (minus_cases (word n a) (word n b) h k refl))

  sign-equal_at :
      (n a b : ℕ)
      → a < modulus n
      → b < modulus n
      → 0 < n
      → binary_word others int_equal
          (binary_word others int_s_less
            (binary_word others int_sub (word n a) (word n b))
            (word n 0))
          (binary_word others int_s_borrow (word n a) (word n b))
        ≡ binary_word others int_s_less_equal (word n b) (word n a)
  unfolding binary_word is_minus borrows order
  sign-equal_at n a b h k p =
      equal-truth _ (borrows (modulus n) a b (minus (word n a) (word n b))) _ _ (
        sign_borrow_at (modulus n) (modulus n / 2) a b (minus (word n a) (word n b)) h k
          (modulus_even n p) (minus_cases (word n a) (word n b) h k refl))

  module _ (x y : Word) (h : Fits x) (k : Fits y) (e : SameSize x y) where
    -- The second operand, with the size of the first.
    resized : word x.size y.bits ≡ y
    resized = word_path (word x.size y.bits) y e refl

    resized-lt : y.bits < modulus x.size
    resized-lt = subst (λ n. y.bits < modulus n) (sym e) k

    pub sign-unequal-borrow :
        0 < x.size
        → binary_word others int_not_equal
            (binary_word others int_s_less (binary_word others int_sub x y) (word x.size 0))
            (binary_word others int_s_borrow x y)
          ≡ binary_word others int_s_less x y
    sign-unequal-borrow p =
        subst
          (λ z.
            binary_word others int_not_equal
              (binary_word others int_s_less (binary_word others int_sub x z) (word x.size 0))
              (binary_word others int_s_borrow x z)
            ≡ binary_word others int_s_less x z)
          resized (sign-unequal_at x.size x.bits y.bits h resized-lt p)

    pub sign-equal-borrow :
        0 < x.size
        → binary_word others int_equal
            (binary_word others int_s_less (binary_word others int_sub x y) (word x.size 0))
            (binary_word others int_s_borrow x y)
          ≡ binary_word others int_s_less_equal y x
    sign-equal-borrow p =
        subst
          (λ z.
            binary_word others int_equal
              (binary_word others int_s_less (binary_word others int_sub x z) (word x.size 0))
              (binary_word others int_s_borrow x z)
            ≡ binary_word others int_s_less_equal z x)
          resized (sign-equal_at x.size x.bits y.bits h resized-lt p)

    pub minus-minus :
        (z : Word)
        → Fits z
        → SameSize x z
        → minus (word x.size (minus x y)) z ≡ minus x (word y.size (plus y z))
    unfolding minus plus
    minus-minus z l f =
        difference-difference (modulus x.size) x.bits y.bits z.bits h resized-lt
          (subst (λ n. z.bits < modulus n) (sym f) l)
        ∙ ap (λ n. (x.bits + (modulus x.size - (y.bits + z.bits) % modulus n)) % modulus x.size) e

    pub plus-plus :
        (z : Word)
        → Fits z
        → SameSize x z
        → plus (word x.size (plus x y)) z ≡ plus x (word y.size (plus y z))
    unfolding plus
    plus-plus z l f =
        sum-sum (modulus x.size) x.bits y.bits z.bits h resized-lt
          (subst (λ n. z.bits < modulus n) (sym f) l)
        ∙ ap (λ n. (x.bits + (y.bits + z.bits) % modulus n) % modulus x.size) e

    pub plus-swap : plus x y ≡ plus y x
    unfolding plus
    plus-swap = ap₂ (λ a b. a % modulus b) (omega arith) e
