-- ===== src/Apint/Words/Laws.antt =====
-- The digits of a word are those of its number, and the instance has the documented laws.
use fkie_cad_cwe_checker.Prelude.{
  ℕ, zero, suc, ◌+◌, ◌-◌, ◌*◌, ◌/◌, ◌%◌, ◌^◌, ◌<◌, ◌≤◌, ◌≡◌, refl, ap, sym, Bool, true, false, none,
  some, length, List, [], ◌∷◌, leb, ltb, ◌==◌, ==_iff, lt→ltb, if◌then◌else◌, arith,
}
use Prim.Native.Nat.{bit_and, bit_or, bit_xor}
use mathlib.Core.Path.{subst}
use native.Mathlib.Nat.{mod-lt, pow-suc, pow-le-pow_right, div-le_self}
use fkie_cad_cwe_checker.Prelude.Bits.{bit_and-lt, bit_or-lt, bit_xor-lt}
use fkie_cad_cwe_checker.Prelude.Powers.{pow_pos}
use fkie_cad_cwe_checker.Apint.Arithmetic.{
  IsArithmetic, is_negative, signed_order, extend_sign-lt, Stands, Gives,
}
use fkie_cad_cwe_checker.Apint.Words.{
  digit, number, word, same_word, words, word_arithmetic, when, on_numbers, compare_numbers,
}

pub number-lt : (b : List Bool) → number b < 2 ^ length b
unfolding number
number-lt [] = omega arith
number-lt (true ∷ bs) = omega (arith, number-lt bs, pow-suc 2 (length bs))
number-lt (false ∷ bs) = omega (arith, number-lt bs, pow-suc 2 (length bs))

length-word : (w n : ℕ) → length (word w n) ≡ w
unfolding word
length-word zero n = refl
length-word (suc w) n = ap suc (length-word w (n / 2))

digit-bit : (n : ℕ) → digit (n % 2 == 1) ≡ n % 2
digit-bit n = ground arith

number-word : (w n : ℕ) → n < 2 ^ w → number (word w n) ≡ n
unfolding number word
number-word zero n h = omega arith
number-word (suc w) n h =
    omega (arith, digit-bit n, number-word w (n / 2) (omega (arith, pow-suc 2 w)))

pub word-Stands : (w n : ℕ) → n < 2 ^ w → Stands words number (word w n) w n
word-Stands w n h = (length-word w n, number-word w n h)

same_word_sound : (b c : List Bool) → same_word b c ≡ true → b ≡ c
unfolding same_word
same_word_sound [] [] h = refl
same_word_sound [] (c ∷ cs) h = ground arith
same_word_sound (b ∷ bs) [] h = ground arith
same_word_sound (true ∷ bs) (true ∷ cs) h = ap (λ t. true ∷ t) (same_word_sound bs cs h)
same_word_sound (true ∷ bs) (false ∷ cs) h = ground arith
same_word_sound (false ∷ bs) (true ∷ cs) h = ground arith
same_word_sound (false ∷ bs) (false ∷ cs) h = ap (λ t. false ∷ t) (same_word_sound bs cs h)

same_word-number : (b c : List Bool) → length b ≡ length c → same_word b c ≡ (number b == number c)
unfolding same_word number
same_word-number [] [] h = refl
same_word-number [] (c ∷ cs) h = absurd (omega arith)
same_word-number (b ∷ bs) [] h = absurd (omega arith)
same_word-number (true ∷ bs) (true ∷ cs) h = ground (arith, same_word-number bs cs)
same_word-number (true ∷ bs) (false ∷ cs) h = ground (arith, same_word-number bs cs)
same_word-number (false ∷ bs) (true ∷ cs) h = ground (arith, same_word-number bs cs)
same_word-number (false ∷ bs) (false ∷ cs) h = ground (arith, same_word-number bs cs)

when-Gives :
    (c : Bool) (w n : ℕ) → c ≡ true → n < 2 ^ w → Gives words number (when c (word w n)) w n
unfolding when
when-Gives c w n h k =
    (word w n, ap (λ t. if t then some (word w n) else none) h, word-Stands w n k)

on_numbers-Gives :
    (f : ℕ → ℕ → ℕ → ℕ) (b c : List Bool)
    → length b ≡ length c
    → f (2 ^ length b) (number b) (number c) < 2 ^ length b
    → Gives words number (on_numbers f b c) (length b) (f (2 ^ length b) (number b) (number c))
unfolding on_numbers
on_numbers-Gives f b c h k =
    when-Gives (length b == length c) (length b) _ ((==_iff (length b) (length c)).1 h) k

compare_numbers_value :
    (f : ℕ → ℕ → ℕ → Bool) (b c : List Bool)
    → length b ≡ length c
    → compare_numbers f b c ≡ some (f (2 ^ length b) (number b) (number c))
unfolding compare_numbers
compare_numbers_value f b c h = ground arith

mod_pow-lt : (n w : ℕ) → n % 2 ^ w < 2 ^ w
mod_pow-lt n w = mod-lt n (pow_pos w)

one-lt : (w : ℕ) → 0 < w → 1 < 2 ^ w
one-lt zero h = absurd (omega arith)
one-lt (suc w) h = omega (arith, pow-suc 2 w, pow_pos w)

pow_le : (w v : ℕ) → w ≤ v → 2 ^ w ≤ 2 ^ v
pow_le w v h = pow-le-pow_right (omega arith) h

div-lt : (n k m : ℕ) → n < m → n / 2 ^ k < m
div-lt n k m h = omega (arith, div-le_self n (2 ^ k))

same-lt : (b c : List Bool) → length b ≡ length c → number c < 2 ^ length b
same-lt b c h = subst (λ w. number c < 2 ^ w) (sym h) (number-lt c)

le→leb : (a b : ℕ) → a ≤ b → leb a b ≡ true
le→leb a b h = ground arith

-- Words of the same width have the same order, whichever of them gives the width.
same_order :
    (test : ℕ → ℕ → Bool) (b c : List Bool)
    → length b ≡ length c
    → compare_numbers (λ m x y. test (signed_order m x) (signed_order m y)) b c
      ≡ some
          (test (signed_order (2 ^ length b) (number b)) (signed_order (2 ^ length b) (number c)))
same_order test = compare_numbers_value (λ m x y. test (signed_order m x) (signed_order m y))

pub words-IsArithmetic : IsArithmetic words word_arithmetic number
unfolding is_negative
words-IsArithmetic = record {
  value-lt = number-lt;
  zero_of-Stands = λ w h. word-Stands w 0 (pow_pos w);
  one_of-Stands = λ w h. word-Stands w 1 (one-lt w h);
  from_u8-Stands = λ n h. word-Stands 8 n h;
  from_u64-Stands = λ n h. word-Stands 64 n h;
  is_zero_iff = λ b. refl;
  is_one_iff = λ b. refl;
  equal_sound = same_word_sound;
  equal_value = same_word-number;
  try_to_u64_value = λ b h. ground arith;
  try_to_u64_none = λ b h. ground arith;
  sign_bit_value = λ b. refl;
  is_positive_true = λ b p h. ground arith;
  is_positive_false = λ b h. ground arith;
  into_bitnot-Stands = λ b. word-Stands (length b) _ (omega (arith, number-lt b));
  neg-Stands = λ b. word-Stands (length b) _ (mod_pow-lt (2 ^ length b - number b) (length b));
  checked_add-Gives = λ b c h.
      on_numbers-Gives (λ m x y. (x + y) % m) b c h (mod_pow-lt (number b + number c) (length b));
  checked_sub-Gives = λ b c h.
      on_numbers-Gives (λ m x y. (x + (m - y)) % m) b c h
        (mod_pow-lt (number b + (2 ^ length b - number c)) (length b));
  checked_bitand-Gives = λ b c h.
      on_numbers-Gives (λ m. bit_and) b c h
        (bit_and-lt (length b) (number b) (number c) (number-lt b) (same-lt b c h));
  checked_bitor-Gives = λ b c h.
      on_numbers-Gives (λ m. bit_or) b c h
        (bit_or-lt (length b) (number b) (number c) (number-lt b) (same-lt b c h));
  checked_bitxor-Gives = λ b c h.
      on_numbers-Gives (λ m. bit_xor) b c h
        (bit_xor-lt (length b) (number b) (number c) (number-lt b) (same-lt b c h));
  checked_ult_value = compare_numbers_value (λ m. ltb);
  checked_ule_value = compare_numbers_value (λ m. leb);
  checked_slt_value = same_order ltb;
  checked_sle_value = same_order leb;
  checked_shl-Gives = λ k b h.
      when-Gives (ltb k (length b)) (length b) _ (lt→ltb k (length b) h)
        (mod_pow-lt (number b * 2 ^ k) (length b));
  checked_lshr-Gives = λ k b h.
      when-Gives (ltb k (length b)) (length b) _ (lt→ltb k (length b) h)
        (div-lt (number b) k (2 ^ length b) (number-lt b));
  zero_extend-Gives = λ w b h.
      when-Gives (leb (length b) w) w _ (le→leb (length b) w h)
        (omega (arith, number-lt b, pow_le (length b) w h));
  sign_extend-Gives = λ w b h.
      when-Gives (leb (length b) w) w _ (le→leb (length b) w h)
        (extend_sign-lt (2 ^ length b) (2 ^ w) (number b) (number-lt b) (pow_le (length b) w h));
  truncate-Gives = λ w b p h.
      when-Gives (leb w (length b)) w _ (le→leb w (length b) h) (mod_pow-lt (number b) w);
}
