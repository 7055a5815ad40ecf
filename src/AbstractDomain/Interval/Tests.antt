-- ===== src/AbstractDomain/Interval/Tests.antt =====
-- The interval operations at concrete values, over words and Euclid's algorithm.
use fkie_cad_cwe_checker.AbstractDomain.Interval.Closed.{IsClosed}
use fkie_cad_cwe_checker.AbstractDomain.Interval.Restricted.{
  Selects, Keeps, Returns, AtMost, AtLeast,
}
use fkie_cad_cwe_checker.AbstractDomain.Interval.RestrictedEnd.{add_signed_less_equal_bound-Selects}
use fkie_cad_cwe_checker.AbstractDomain.Interval.RestrictedStart.{
  add_signed_greater_equal_bound-Selects,
}
use fkie_cad_cwe_checker.AbstractDomain.Interval.RestrictedUnsigned.{
  add_unsigned_less_equal_bound-Keeps, add_unsigned_greater_equal_bound-Keeps,
}
use fkie_cad_cwe_checker.AbstractDomain.Interval.RestrictedUnequal.{add_not_equal_bound-Keeps}
use fkie_cad_cwe_checker.AbstractDomain.Interval.Conditional.{
  add_signed_less_equal_bound, add_signed_greater_equal_bound, add_unsigned_less_equal_bound,
  add_unsigned_greater_equal_bound, add_not_equal_bound,
}
use fkie_cad_cwe_checker.Apint.Words.Limits.{word_bounds, word_bounds-IsBounds}
use fkie_cad_cwe_checker.AbstractDomain.Interval.Widening.{Widened, signed_merge_and_widen}
use fkie_cad_cwe_checker.AbstractDomain.Interval.Hints.{IsDomain}
use fkie_cad_cwe_checker.AbstractDomain.Interval.Widened.{signed_merge_and_widen-Represents}
use fkie_cad_cwe_checker.AbstractDomain.Interval.Membership.{
  Decides, contains-Decides, int_2_comp-Represents,
}
use fkie_cad_cwe_checker.IntermediateRepresentation.Expression.UnOpType.{int2_comp}
use fkie_cad_cwe_checker.Apint.Words.{
  on_numbers, compare_numbers, same_word, words, word_arithmetic, word, number, when,
}
use fkie_cad_cwe_checker.IntermediateRepresentation.Bitvector.Yields.{IsWhole}
use fkie_cad_cwe_checker.Prelude.{
  ℕ, zero, suc, ◌+◌, ◌*◌, ◌/◌, ◌%◌, ◌≡◌, refl, arith, List, Bool, some, inr, ap, ◌<◌, ◌≤◌, false,
  ◌⊎◌, none, ◌^◌,
}
use fkie_cad_cwe_checker.Prelude.Outcome.{ok}
use native.Mathlib.Nat.{div-add-mod}
use fkie_cad_cwe_checker.Apint.{byte_size_from}
use fkie_cad_cwe_checker.Apint.Arithmetic.{is_negative, signed_order}
use fkie_cad_cwe_checker.Apint.Signed.{Gcd}
use fkie_cad_cwe_checker.Apint.Words.Laws.{words-IsArithmetic}
use fkie_cad_cwe_checker.IntermediateRepresentation.Bitvector.{bin_op_bitvector, un_op_bitvector}
use fkie_cad_cwe_checker.IntermediateRepresentation.Bitvector.Overflow.{integer}
use fkie_cad_cwe_checker.IntermediateRepresentation.Expression.BinOpType.{int_add, int_sub}
use fkie_cad_cwe_checker.AbstractDomain.Interval.{
  Strided, strided, add, sub, signed_merge, contains, int_2_comp,
}
use fkie_cad_cwe_checker.AbstractDomain.Interval.Represented.{Represents}
use fkie_cad_cwe_checker.AbstractDomain.Interval.Sound.{SameSize, add-Represents, sub-Represents}
use fkie_cad_cwe_checker.AbstractDomain.Interval.Merged.{signed_merge-Represents}

euclid : ℕ → ℕ → ℕ → ℕ
euclid zero m n = 1
euclid (suc fuel) m zero = m
euclid (suc fuel) m (suc n) = euclid fuel (suc n) (m % suc n)

euclid_divides :
    (fuel m n : ℕ) → ((k : ℕ) × (m ≡ k * euclid fuel m n)) × ((k : ℕ) × (n ≡ k * euclid fuel m n))
unfolding euclid
euclid_divides zero m n = ((m, omega arith), (n, omega arith))
euclid_divides (suc fuel) m zero = ((1, omega arith), (0, omega arith))
euclid_divides (suc fuel) m (suc n) =
    let (left, right) = euclid_divides fuel (suc n) (m % suc n) in
    let (k, e) = left in
    let (l, f) = right in
    ((m / suc n * k + l, omega (arith, div-add-mod m (suc n), f, ap (λ x. m / suc n * x) e)), left)

abbrev euclidean : Gcd
euclidean = record {
  gcd = λ m n. euclid (suc (m + n)) m n;
  divides_left = λ m n. (euclid_divides (suc (m + n)) m n).0;
  divides_right = λ m n. (euclid_divides (suc (m + n)) m n).1;
}

abbrev Bytes : Type 0
Bytes = Strided words word_arithmetic word_bounds euclidean

abbrev bytes : ℕ → ℕ → ℕ → Bytes
bytes start end stride =
    strided words word_arithmetic word_bounds euclidean (word 8 start) (word 8 end) stride

same_size :
    (k l s m n t : ℕ)
    → SameSize words word_arithmetic number words-IsArithmetic word_bounds word_bounds-IsBounds
        euclidean
        (bytes k l s)
        (bytes m n t)
unfolding word byte_size_from
same_size k l s m n t = ((refl, omega arith), (refl, (refl, refl)))

-- 4 of the even numbers from 2 to 6, and 253 for -3 of those from -3 to 0.
four-Represents : Represents words number (bytes 2 6 2) (word 8 4)
unfolding integer word number signed_order is_negative
four-Represents = (refl, (omega arith, (1, refl)))

minus_three-Represents : Represents words number (bytes 253 0 3) (word 8 253)
unfolding integer word number signed_order is_negative
minus_three-Represents = (refl, (omega arith, (0, refl)))

zero-Represents : Represents words number (bytes 253 0 3) (word 8 0)
unfolding integer word number signed_order is_negative
zero-Represents = (refl, (omega arith, (1, refl)))

add-Represents_example :
    (r : Bytes) × ((d : List Bool) × ((add words word_arithmetic word_bounds euclidean
            (bytes 2 6 2)
            (bytes 253 0 3)
          ≡ ok r)
        × ((bin_op_bitvector words word_arithmetic (word 8 4) int_add (word 8 253) ≡ ok (some d))
            × Represents words number r d)))
add-Represents_example =
    add-Represents words word_arithmetic number words-IsArithmetic word_bounds word_bounds-IsBounds
      euclidean (bytes 2 6 2) (bytes 253 0 3) (word 8 4) (word 8 253) (same_size 2 6 2 253 0 3)
      four-Represents minus_three-Represents

sub-Represents_example :
    (r : Bytes) × ((d : List Bool) × ((sub words word_arithmetic word_bounds euclidean
            (bytes 2 6 2)
            (bytes 253 0 3)
          ≡ ok r)
        × ((bin_op_bitvector words word_arithmetic (word 8 4) int_sub (word 8 253) ≡ ok (some d))
            × Represents words number r d)))
sub-Represents_example =
    sub-Represents words word_arithmetic number words-IsArithmetic word_bounds word_bounds-IsBounds
      euclidean (bytes 2 6 2) (bytes 253 0 3) (word 8 4) (word 8 253) (same_size 2 6 2 253 0 3)
      zero-Represents four-Represents minus_three-Represents

signed_merge-Represents_example :
    (r : Bytes) × ((signed_merge words word_arithmetic word_bounds euclidean
          (bytes 2 6 2)
          (bytes 253 0 3)
        ≡ ok r)
      × Represents words number r (word 8 253))
signed_merge-Represents_example =
    signed_merge-Represents words word_arithmetic number words-IsArithmetic word_bounds
      word_bounds-IsBounds euclidean (bytes 2 6 2) (bytes 253 0 3) (word 8 253)
      (same_size 2 6 2 253 0 3) (inr minus_three-Represents)

six-Represents : Represents words number (bytes 2 6 2) (word 8 6)
unfolding integer word number signed_order is_negative
six-Represents = (refl, (omega arith, (2, refl)))

byte_width : (m n : ℕ) → words.width (word 8 m) ≡ words.width (word 8 n)
unfolding word
byte_width m n = refl

byte_width_bounds : (n : ℕ) → (0 < words.width (word 8 n)) × (words.width (word 8 n) ≤ 64)
unfolding word
byte_width_bounds n = (omega arith, omega arith)

word-IsWhole : (n : ℕ) → IsWhole words (word 8 n)
unfolding word byte_size_from
word-IsWhole n = (refl, omega arith)

contains-Decides_example :
    Decides words word_arithmetic number words-IsArithmetic word_bounds word_bounds-IsBounds
      euclidean
      (contains words word_arithmetic word_bounds euclidean (bytes 2 6 2) (word 8 5))
      (Represents words number (bytes 2 6 2) (word 8 5))
contains-Decides_example =
    contains-Decides words word_arithmetic number words-IsArithmetic word_bounds
      word_bounds-IsBounds euclidean (bytes 2 6 2) (word 8 5) (byte_width_bounds 2).0 six-Represents
      (byte_width 5 2) (byte_width_bounds 5).1

-- 5 is not an even number.
contains_run :
    contains words word_arithmetic word_bounds euclidean (bytes 2 6 2) (word 8 5) ≡ ok false
unfolding contains word number signed_order is_negative on_numbers compare_numbers same_word
contains_run = refl

int_2_comp-Represents_example :
    (r : Bytes) × ((d : List Bool) × ((int_2_comp words word_arithmetic word_bounds euclidean
            (bytes 2 6 2)
          ≡ ok r)
        × ((un_op_bitvector words word_arithmetic (word 8 4) int2_comp ≡ ok (some d))
            × Represents words number r d)))
int_2_comp-Represents_example =
    int_2_comp-Represents words word_arithmetic number words-IsArithmetic word_bounds
      word_bounds-IsBounds euclidean (bytes 2 6 2) (word 8 4) (word-IsWhole 2) six-Represents
      four-Represents

abbrev Domains : Type 0
Domains = Widened words word_arithmetic word_bounds euclidean

-- The even numbers from 2 to 6 and those from 8 to 12, each with hints around it.
abbrev evens : Domains
evens = record {
  interval = bytes 2 6 2;
  widening_upper_bound = some (word 8 20);
  widening_lower_bound = some (word 8 252);
  widening_delay = 0;
}

abbrev evens' : Domains
evens' = record {
  interval = bytes 8 12 2;
  widening_upper_bound = none;
  widening_lower_bound = none;
  widening_delay = 2;
}

evens-IsDomain :
    IsDomain words word_arithmetic number words-IsArithmetic word_bounds word_bounds-IsBounds
      euclidean evens
unfolding integer word number signed_order is_negative
evens-IsDomain = (word-IsWhole 2, (refl, ((refl, omega arith), (refl, omega arith))))

evens'-IsDomain :
    IsDomain words word_arithmetic number words-IsArithmetic word_bounds word_bounds-IsBounds
      euclidean evens'
unfolding word
evens'-IsDomain = (word-IsWhole 8, (refl, (tt, tt)))

twelve-Represents : Represents words number (bytes 8 12 2) (word 8 12)
unfolding integer word number signed_order is_negative
twelve-Represents = (refl, (omega arith, (2, refl)))

abbrev ClosedDomain : Domains → Type 0
ClosedDomain =
    IsClosed words word_arithmetic number words-IsArithmetic word_bounds word_bounds-IsBounds
      euclidean

evens-IsClosed : ClosedDomain evens
evens-IsClosed = (evens-IsDomain, six-Represents)

evens'-IsClosed : ClosedDomain evens'
evens'-IsClosed = (evens'-IsDomain, twelve-Represents)

signed_merge_and_widen-Represents_example :
    (r : Domains) × ((signed_merge_and_widen words word_arithmetic word_bounds euclidean evens
          evens'
        ≡ ok r)
      × (words.width r.interval.start ≡ words.width (word 8 2))
      × ClosedDomain r
      × ((b : List Bool)
          → Represents words number (bytes 2 6 2) b ⊎ Represents words number (bytes 8 12 2) b
          → Represents words number r.interval b))
signed_merge_and_widen-Represents_example =
    signed_merge_and_widen-Represents words word_arithmetic number words-IsArithmetic word_bounds
      word_bounds-IsBounds euclidean evens evens' evens-IsClosed evens'-IsClosed (byte_width 8 2)

small_stride : (n : ℕ) → evens.interval.stride ≤ 2 ^ words.width (word 8 n) / 2
unfolding word
small_stride n = omega arith

add_signed_less_equal_bound-Selects_example :
    Selects words word_arithmetic number words-IsArithmetic word_bounds word_bounds-IsBounds
      euclidean
      (AtMost words number (word 8 5))
      evens
      (add_signed_less_equal_bound words word_arithmetic word_bounds euclidean (word 8 5) evens)
add_signed_less_equal_bound-Selects_example =
    add_signed_less_equal_bound-Selects words word_arithmetic number words-IsArithmetic word_bounds
      word_bounds-IsBounds euclidean (word 8 5) evens evens-IsClosed (byte_width 5 2)
      (small_stride 5)

add_signed_greater_equal_bound-Selects_example :
    Selects words word_arithmetic number words-IsArithmetic word_bounds word_bounds-IsBounds
      euclidean
      (AtLeast words number (word 8 3))
      evens
      (add_signed_greater_equal_bound words word_arithmetic word_bounds euclidean (word 8 3) evens)
add_signed_greater_equal_bound-Selects_example =
    add_signed_greater_equal_bound-Selects words word_arithmetic number words-IsArithmetic
      word_bounds word_bounds-IsBounds euclidean (word 8 3) evens evens-IsClosed (byte_width 3 2)
      (small_stride 3)

add_unsigned_less_equal_bound-Keeps_example :
    Returns words word_arithmetic number words-IsArithmetic word_bounds word_bounds-IsBounds
      euclidean
      (Keeps words word_arithmetic number words-IsArithmetic word_bounds word_bounds-IsBounds
        euclidean
        (λ b. number b ≤ number (word 8 4))
        evens)
      (add_unsigned_less_equal_bound words word_arithmetic word_bounds euclidean (word 8 4) evens)
add_unsigned_less_equal_bound-Keeps_example =
    add_unsigned_less_equal_bound-Keeps words word_arithmetic number words-IsArithmetic word_bounds
      word_bounds-IsBounds euclidean (word 8 4) evens evens-IsClosed (byte_width 4 2)
      (small_stride 4)

add_unsigned_greater_equal_bound-Keeps_example :
    Returns words word_arithmetic number words-IsArithmetic word_bounds word_bounds-IsBounds
      euclidean
      (Keeps words word_arithmetic number words-IsArithmetic word_bounds word_bounds-IsBounds
        euclidean
        (λ b. number (word 8 4) ≤ number b)
        evens)
      (add_unsigned_greater_equal_bound words word_arithmetic word_bounds euclidean
        (word 8 4)
        evens)
add_unsigned_greater_equal_bound-Keeps_example =
    add_unsigned_greater_equal_bound-Keeps words word_arithmetic number words-IsArithmetic
      word_bounds word_bounds-IsBounds euclidean (word 8 4) evens evens-IsClosed (byte_width 4 2)
      (small_stride 4)

add_not_equal_bound-Keeps_example :
    Returns words word_arithmetic number words-IsArithmetic word_bounds word_bounds-IsBounds
      euclidean
      (Keeps words word_arithmetic number words-IsArithmetic word_bounds word_bounds-IsBounds
        euclidean
        (λ b. ¬ (number b ≡ number (word 8 6)))
        evens)
      (add_not_equal_bound words word_arithmetic word_bounds euclidean (word 8 6) evens)
add_not_equal_bound-Keeps_example =
    add_not_equal_bound-Keeps words word_arithmetic number words-IsArithmetic word_bounds
      word_bounds-IsBounds euclidean (word 8 6) evens evens-IsClosed (byte_width 6 2)
      (small_stride 6)

-- -100 and 100, of which 100 is at least -99.
abbrev far_apart : Domains
far_apart = record {
  interval = bytes 156 100 200;
  widening_upper_bound = none;
  widening_lower_bound = none;
  widening_delay = 0;
}

far_apart_run :
    add_signed_greater_equal_bound words word_arithmetic word_bounds euclidean
      (word 8 157)
      far_apart
    ≡ ok none
unfolding add_signed_greater_equal_bound word number signed_order is_negative on_numbers
    compare_numbers when byte_size_from
far_apart_run = refl
