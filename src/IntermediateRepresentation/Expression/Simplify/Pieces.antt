-- ===== src/IntermediateRepresentation/Expression/Simplify/Pieces.antt =====
-- Equations between the casts, pieces and complements of words.
use fkie_cad_cwe_checker.IntermediateRepresentation.Expression.{CastOpType, BinOpType}
use fkie_cad_cwe_checker.IntermediateRepresentation.Expression.Simplify.{extends, true, negated}
use Prim.Native.Nat.{zero, suc}
use fkie_cad_cwe_checker.Prelude.{
  ℕ, ◌+◌, ◌-◌, ◌*◌, ◌/◌, ◌%◌, ◌<◌, ◌≤◌, ◌≡◌, refl, ap, ◌∙◌, some, arith,
}
use native.Mathlib.Nat.{mod-eq_of_lt, div-one, mod_self}
use fkie_cad_cwe_checker.Prelude.Powers.{
  modulus, modulus_pos, modulus_add, modulus_le, modulus-split, piece-div, piece-mod, mod-div-mod,
  div-modulus,
}
use fkie_cad_cwe_checker.Apint.Arithmetic.{is_negative, complement, extend_sign}
use fkie_cad_cwe_checker.IntermediateRepresentation.Expression.BinOpType.{piece}
use fkie_cad_cwe_checker.IntermediateRepresentation.Expression.UnOpType.{
  int_negate, int2_comp, bool_negate,
}
use fkie_cad_cwe_checker.IntermediateRepresentation.Expression.CastOpType.{int_z_ext, int_s_ext}
use fkie_cad_cwe_checker.IntermediateRepresentation.Expression.Pcode.{
  Word, word, Others, binary_word, unary_word, cast_word, subpiece_word,
}
use fkie_cad_cwe_checker.IntermediateRepresentation.Expression.Simplify.WordLaws.{word_path}
use fkie_cad_cwe_checker.IntermediateRepresentation.Expression.Simplify.Typed.{
  Fits, IsBoolean, Operands,
}

sub-zero : (m : ℕ) → m - 0 ≡ m
sub-zero m = omega arith

complement-complement : (m n : ℕ) → n < m → complement m (complement m n) ≡ n
complement-complement m zero h =
    let z : (m - 0) % m ≡ 0 = ap (λ t. t % m) (sub-zero m) ∙ mod_self m in
    ap (λ t. (m - t) % m) z ∙ z
complement-complement m (suc n) h =
    ap (λ t. (m - t) % m) (mod-eq_of_lt (omega arith)) ∙ mod-eq_of_lt (omega arith) ∙ omega arith

modulus_zero : modulus 0 ≡ 1
unfolding modulus
modulus_zero = refl

-- The added digits lie above those of the number.
extend_sign-mod : (m k m' n : ℕ) → n < m → 0 < k → m' ≡ k * m → extend_sign m m' n % m ≡ n
unfolding extend_sign is_negative
extend_sign-mod m zero m' n h p e = absurd (omega arith)
extend_sign-mod m (suc k) m' n h p e =
    let sum : n + m' - m ≡ k * m + n = omega (arith, e) in
    let extended : (n + m' - m) % m ≡ n = ap (λ t. t % m) sum ∙ piece-mod k n m h in
    let kept : n % m ≡ n = mod-eq_of_lt h in ground (arith, extended, kept)

extend_sign-twice :
    (m m' m'' n : ℕ)
    → n < m
    → m ≤ m'
    → m' ≤ m''
    → extend_sign m' m'' (extend_sign m m' n) ≡ extend_sign m m'' n
unfolding extend_sign is_negative
extend_sign-twice m m' m'' n h k l = ground arith

three_parts :
    (low size inner_size : ℕ)
    → low + size ≤ inner_size
    → modulus inner_size ≡ modulus (inner_size - (size + low)) * modulus size * modulus low
three_parts low size inner_size h =
    modulus-split (size + low) inner_size (omega arith)
    ∙ omega (arith, ap (λ t. modulus (inner_size - (size + low)) * t) (modulus_add size low))

pub negated-Operands :
    (op new_op : BinOpType) (x y : Word)
    → negated op ≡ some new_op
    → Operands op x y
    → Operands new_op y x
unfolding negated Operands
negated-Operands op new_op x y h t = ground arith

module _ (others : Others) where
  pub int_negate-twice :
      (x : Word) → Fits x → unary_word others int_negate (unary_word others int_negate x) ≡ x
  unfolding unary_word
  int_negate-twice x h = word_path _ x refl (omega arith)

  pub int2_comp-twice :
      (x : Word) → Fits x → unary_word others int2_comp (unary_word others int2_comp x) ≡ x
  unfolding unary_word
  int2_comp-twice x h = word_path _ x refl (complement-complement (modulus x.size) x.bits h)

  pub bool_negate-twice :
      (x : Word) → IsBoolean x → unary_word others bool_negate (unary_word others bool_negate x) ≡ x
  unfolding unary_word
  bool_negate-twice x h = word_path _ x refl (ground arith)

  pub negated-swap :
      (op new_op : BinOpType) (x y : Word)
      → negated op ≡ some new_op
      → unary_word others bool_negate (binary_word others op x y) ≡ binary_word others new_op y x
  unfolding unary_word binary_word negated
  negated-swap op new_op x y h = ground arith

  pub whole-subpiece : (x : Word) → Fits x → subpiece_word others 0 x.size x ≡ x
  unfolding subpiece_word
  whole-subpiece x h = word_path _ x refl (
      ap (λ m. x.bits / m % modulus x.size) modulus_zero
      ∙ ap (λ n. n % modulus x.size) (div-one x.bits)
      ∙ mod-eq_of_lt h)

  pub subpiece-z_ext :
      (x : Word) (n : ℕ)
      → Fits x
      → subpiece_word others 0 x.size (cast_word others int_z_ext n x) ≡ x
  unfolding subpiece_word cast_word
  subpiece-z_ext x n h = whole-subpiece x h

  pub subpiece-s_ext :
      (x : Word) (n : ℕ)
      → Fits x
      → x.size ≤ n
      → subpiece_word others 0 x.size (cast_word others int_s_ext n x) ≡ x
  unfolding subpiece_word cast_word
  subpiece-s_ext x n h k = word_path _ x refl (
      ap (λ m. extend_sign (modulus x.size) (modulus n) x.bits / m % modulus x.size) modulus_zero
      ∙ ap (λ t. t % modulus x.size) (div-one (extend_sign (modulus x.size) (modulus n) x.bits))
      ∙ extend_sign-mod (modulus x.size) (modulus (n - x.size)) (modulus n) x.bits h
          (modulus_pos (n - x.size)) (modulus-split x.size n k))

  pub subpiece-lhs :
      (x y : Word)
      → Fits x
      → Fits y
      → subpiece_word others y.size x.size (binary_word others piece x y) ≡ x
  unfolding subpiece_word binary_word
  subpiece-lhs x y h k =
      word_path _ x refl
        (ap (λ n. n % modulus x.size) (piece-div x.bits y.bits (modulus y.size) k) ∙ mod-eq_of_lt h)

  pub subpiece-rhs :
      (x y : Word) → Fits y → subpiece_word others 0 y.size (binary_word others piece x y) ≡ y
  unfolding subpiece_word binary_word
  subpiece-rhs x y k = word_path _ y refl (
      ap (λ m. (x.bits * modulus y.size + y.bits) / m % modulus y.size) modulus_zero
      ∙ ap (λ n. n % modulus y.size) (div-one (x.bits * modulus y.size + y.bits))
      ∙ piece-mod x.bits y.bits (modulus y.size) k)

  pub subpiece-subpiece :
      (x : Word) (low size inner_low inner_size : ℕ)
      → low + size ≤ inner_size
      → subpiece_word others low size (subpiece_word others inner_low inner_size x)
        ≡ subpiece_word others (low + inner_low) size x
  unfolding subpiece_word
  subpiece-subpiece x low size inner_low inner_size h = ap (word size) (
      ap (λ m. x.bits / modulus inner_low % m / modulus low % modulus size)
        (three_parts low size inner_size h)
      ∙ mod-div-mod (x.bits / modulus inner_low) (modulus low) (modulus size)
          (modulus (inner_size - (size + low))) (modulus_pos low)
      ∙ ap (λ n. n % modulus size) (div-modulus x.bits inner_low low))

  pub whole-cast_z : (x : Word) → cast_word others int_z_ext x.size x ≡ x
  unfolding cast_word
  whole-cast_z x = refl

  pub whole-cast_s : (x : Word) → cast_word others int_s_ext x.size x ≡ x
  unfolding cast_word extend_sign is_negative
  whole-cast_s x = word_path _ x refl (ground arith)

  pub z_ext-z_ext :
      (x : Word) (n k : ℕ)
      → cast_word others int_z_ext n (cast_word others int_z_ext k x)
        ≡ cast_word others int_z_ext n x
  unfolding cast_word
  z_ext-z_ext x n k = refl

  pub s_ext-s_ext :
      (x : Word) (n k : ℕ)
      → Fits x
      → x.size ≤ k
      → k ≤ n
      → cast_word others int_s_ext n (cast_word others int_s_ext k x)
        ≡ cast_word others int_s_ext n x
  unfolding cast_word
  s_ext-s_ext x n k h l r = ap (word n) (
      extend_sign-twice (modulus x.size) (modulus k) (modulus n) x.bits h (modulus_le x.size k l)
        (modulus_le k n r))

  pub whole-cast :
      (op : CastOpType) (x : Word) → extends op ≡ true → cast_word others op x.size x ≡ x
  whole-cast int_z_ext x h = whole-cast_z x
  whole-cast int_s_ext x h = whole-cast_s x
  whole-cast _ x h = ground arith
