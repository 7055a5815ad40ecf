-- ===== src/Apint/Words/Limits.antt =====
-- The bounds and the conversions to signed integers, for words.
use native.Mathlib.Nat.{pow-le-pow_right}
use fkie_cad_cwe_checker.Prelude.{
  ℕ, ◌+◌, ◌-◌, ◌/◌, ◌%◌, ◌^◌, ◌<◌, ◌≤◌, ◌≡◌, arith, some, none, List, Bool, leb, true, false, refl,
  if◌then◌else◌,
}
use fkie_cad_cwe_checker.Prelude.Powers.{pow_pos}
use fkie_cad_cwe_checker.Apint.Arithmetic.{is_negative, signed_order, extend_sign}
use fkie_cad_cwe_checker.Apint.Signed.{Bounds, IsBounds}
use fkie_cad_cwe_checker.Apint.Words.{words, word, number}
use fkie_cad_cwe_checker.Apint.Words.Laws.{word-Stands, number-lt}

abbrev pub word_bounds : Bounds words
word_bounds = record {
  signed_min_value = λ w. word w (2 ^ w / 2);
  signed_max_value = λ w. word w (2 ^ w / 2 - 1);
  unsigned_max_value = λ w. word w (2 ^ w - 1);
  try_to_i128 = λ b.
      if leb (words.width b) 128
      then some (signed_order (2 ^ words.width b) (number b) + 2 ^ 127 - 2 ^ words.width b)
      else none;
}

signed_number :
    (m x n : ℕ)
    → x < m
    → m ≤ 2 ^ 64
    → n ≡ (extend_sign m (2 ^ 64) x + 2 ^ 63) % 2 ^ 64
    → (n < 2 ^ 64) × (n + m ≡ signed_order m x + 2 ^ 63)
unfolding extend_sign signed_order is_negative
signed_number m x n h k e = (omega (arith, e), ground (arith, h, k, e))

within_64_bits : (b : List Bool) → words.width b ≤ 64 → 2 ^ words.width b ≤ 2 ^ 64
within_64_bits b h = pow-le-pow_right (omega arith) h

converted : (c : Bool) (m n : ℕ) → (if c then some m else none) ≡ some n → (c ≡ true) × (n ≡ m)
converted true m n h = (refl, cc)
converted false m n h = cc

try_to_i64_words :
    (b : List Bool) (n : ℕ)
    → words.try_to_i64 b ≡ some n
    → (n < 2 ^ 64) × (n + 2 ^ words.width b ≡ signed_order (2 ^ words.width b) (number b) + 2 ^ 63)
try_to_i64_words b n h =
    let (fits, e) = converted (leb (words.width b) 64) _ n h in
    signed_number _ _ n (number-lt b) (within_64_bits b (ground arith)) e

try_to_i128_words :
    (b : List Bool)
    → words.width b ≤ 64
    → (n : ℕ) × (word_bounds.try_to_i128 b ≡ some n)
      × (n + 2 ^ words.width b ≡ signed_order (2 ^ words.width b) (number b) + 2 ^ 127)
try_to_i128_words b h = (
  signed_order (2 ^ words.width b) (number b) + 2 ^ 127 - 2 ^ words.width b,
  ground (arith, h),
  omega (arith, within_64_bits b h),
)

pub word_bounds-IsBounds : IsBounds words word_bounds number
word_bounds-IsBounds = record {
  signed_min_value-Stands = λ w p. word-Stands w _ (omega (arith, pow_pos w));
  signed_max_value-Stands = λ w p. word-Stands w _ (omega (arith, pow_pos w));
  unsigned_max_value-Stands = λ w p. word-Stands w _ (omega (arith, pow_pos w));
  try_to_i64_sound = try_to_i64_words;
  try_to_i128_total = try_to_i128_words;
}
