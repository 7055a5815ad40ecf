-- ===== src/AbstractDomain/Interval.antt =====
-- src/cwe_checker_lib/src/abstract_domain/interval/simple_interval.rs: strided intervals of bitvectors.
-- A subtraction of two `i64` wraps around, as in a release build.
pub mod Represented
pub mod Sound
pub mod MergedStrides
pub mod Merged
pub mod Membership
pub mod Widening
pub mod Conditional
pub mod Excess
pub mod Adjusted
pub mod Lowered
pub mod Hints
pub mod Closed
pub mod WidenSteps
pub mod Widened
pub mod Residue
pub mod Rounded
pub mod Restricted
pub mod RestrictedEnd
pub mod RestrictedStart
pub mod Signs
pub mod Keeping
pub mod RestrictedUnsigned
pub mod RestrictedUnequal
mod Tests
use fkie_cad_cwe_checker.Prelude.{
  ℕ, ◌+◌, ◌-◌, ◌%◌, ◌^◌, Bool, true, false, not, ◌&&◌, ◌==◌, ltb, Option, some, none, if◌then◌else◌,
  ◌||◌,
}
use fkie_cad_cwe_checker.Prelude.Outcome.{Outcome, ok, ◌>>=◌, ◌>>◌, assert, unwrap}
use fkie_cad_cwe_checker.Apint.{ApInt, byte_size_from}
use fkie_cad_cwe_checker.Apint.Arithmetic.{Arithmetic}
use fkie_cad_cwe_checker.Apint.Signed.{Bounds, Gcd}
use fkie_cad_cwe_checker.IntermediateRepresentation.Bitvector.{
  as_bit_length, resize_unsigned, subpiece_bitvector, signed_add_overflow_checked,
  signed_sub_overflow_checked, signed_mult_with_overflow_flag,
}

pub record Interval (Bitvector : Type 0) : Type 0 where
  pub start : Bitvector
  pub end : Bitvector
  pub stride : ℕ

module _ (api : ApInt) (a : Arithmetic api) (bounds : Bounds api) (g : Gcd) where
  abbrev pub Strided : Type 0
  Strided = Interval api.Bitvector

  abbrev pub strided : api.Bitvector → api.Bitvector → ℕ → Strided
  strided start end stride = record { start = start; end = end; stride = stride }

  abbrev pub greater : api.Bitvector → api.Bitvector → Outcome Bool
  greater b c = unwrap (a.checked_slt c b)

  abbrev pub bytesize : Strided → ℕ
  bytesize interval = byte_size_from (api.width interval.start)

  -- `From<Bitvector>`
  abbrev pub from_bitvector : api.Bitvector → Strided
  from_bitvector bitvec = strided bitvec bitvec 0

  abbrev pub new_top : ℕ → Strided
  new_top size =
      strided (bounds.signed_min_value (as_bit_length size))
        (bounds.signed_max_value (as_bit_length size)) 1

  unfoldable pub is_top : Strided → Outcome Bool
  is_top interval = do
    before ← unwrap (a.checked_sub interval.start (a.one_of (api.width interval.start)))
    ok (a.equal before interval.end && interval.stride == 1)

  abbrev pub signed_min : api.Bitvector → api.Bitvector → Outcome api.Bitvector
  signed_min v1 v2 = do below ← unwrap (a.checked_sle v1 v2); ok (if below then v1 else v2)

  abbrev pub signed_max : api.Bitvector → api.Bitvector → Outcome api.Bitvector
  signed_max v1 v2 = do above ← unwrap (a.checked_sle v2 v1); ok (if above then v1 else v2)

  -- The stride of a merge, from the difference of the starts.
  abbrev pub merged_stride : ℕ → ℕ → Option ℕ → ℕ
  merged_stride stride other (some start_diff) = g.gcd (g.gcd stride other) start_diff
  merged_stride stride other none = 1

  -- The merge of intervals that do not wrap around.
  unfoldable pub merge_ordered : Strided → Strided → Outcome Strided
  merge_ordered interval other = do
    start ← signed_min interval.start other.start
    end ← signed_max interval.end other.end
    above ← greater interval.start other.start
    start_diff ←
        if above
        then unwrap (a.checked_sub interval.start other.start)
        else unwrap (a.checked_sub other.start interval.start)
    ok (strided start end (merged_stride interval.stride other.stride (a.try_to_u64 start_diff)))

  unfoldable pub signed_merge : Strided → Strided → Outcome Strided
  unfolding merge_ordered
  signed_merge interval other = do
    wraps ← greater interval.start interval.end
    either_wraps ← if wraps then ok true else greater other.start other.end
    if either_wraps then ok (new_top (bytesize interval)) else merge_ordered interval other

  abbrev set_stride_to_unknown : Strided → Strided
  set_stride_to_unknown interval =
      strided interval.start interval.end (if a.equal interval.start interval.end then 0 else 1)

  -- `(end - start) as u64 % stride`
  abbrev excess : ℕ → ℕ → ℕ → ℕ
  excess start end stride = (end + 2 ^ 64 - start) % 2 ^ 64 % stride

  -- The stride is 0 when the interval has come down to one value.
  abbrev unless_single : Strided → Strided
  unless_single interval =
      strided interval.start interval.end
        (if a.equal interval.start interval.end then 0 else interval.stride)

  abbrev both : Option ℕ → Option ℕ → Option (ℕ × ℕ)
  both (some start) (some end) = some (start, end)
  both _ _ = none

  unfoldable pub adjust_end_to_value_in_stride : Strided → Outcome Strided
  adjust_end_to_value_in_stride interval =
      if interval.stride == 0
      then ok (strided interval.start interval.start 0)
      else if interval.stride == 1 && not (a.equal interval.start interval.end)
      then ok interval
      else elim (both (api.try_to_i64 interval.start) (api.try_to_i64 interval.end)) [
        | some (start, end) ↦ (do
          diff ←
              resize_unsigned api a (a.from_u64 (excess start end interval.stride))
                (byte_size_from (api.width interval.end))
          rounded ← unwrap (a.checked_sub interval.end diff)
          ok (unless_single (strided interval.start rounded interval.stride)))
        | none ↦ ok (set_stride_to_unknown interval)
      ]

  unfoldable pub adjust_start_to_value_in_stride : Strided → Outcome Strided
  adjust_start_to_value_in_stride interval =
      if interval.stride == 0
      then ok (strided interval.end interval.end 0)
      else if interval.stride == 1 && not (a.equal interval.start interval.end)
      then ok interval
      else elim (both (api.try_to_i64 interval.start) (api.try_to_i64 interval.end)) [
        | some (start, end) ↦ (do
          diff ←
              resize_unsigned api a (a.from_u64 (excess start end interval.stride))
                (byte_size_from (api.width interval.end))
          rounded ← unwrap (a.checked_add interval.start diff)
          ok (unless_single (strided rounded interval.end interval.stride)))
        | none ↦ ok (set_stride_to_unknown interval)
      ]

  unfoldable pub new : api.Bitvector → api.Bitvector → ℕ → Outcome Strided
  unfolding adjust_end_to_value_in_stride
  new start end stride =
      assert (api.width start == api.width end)
      >> adjust_end_to_value_in_stride (strided start end stride)

  unfoldable pub subpiece_higher : Strided → ℕ → Outcome Strided
  unfolding subpiece_bitvector
  subpiece_higher interval low_byte = do
    start ← subpiece_bitvector api a interval.start low_byte (bytesize interval - low_byte)
    end ← subpiece_bitvector api a interval.end low_byte (bytesize interval - low_byte)
    ok (strided start end (if a.equal start end then 0 else 1))

  unfoldable pub subpiece_lower : Strided → ℕ → Outcome Strided
  subpiece_lower interval size = do
    length ← unwrap (a.checked_sub interval.end interval.start)
    greatest ← unwrap (
        a.zero_extend (as_bit_length (bytesize interval))
          (bounds.unsigned_max_value (as_bit_length size)))
    fits ← unwrap (a.checked_ule length greatest)
    if fits
        then (do
          start ← unwrap (a.truncate (as_bit_length size) interval.start)
          end ← unwrap (a.truncate (as_bit_length size) interval.end)
          ordered ← unwrap (a.checked_sle start end)
          ok (if ordered then strided start end interval.stride else new_top size))
        else ok (new_top size)

  unfoldable pub subpiece : Strided → ℕ → ℕ → Outcome Strided
  unfolding subpiece_higher subpiece_lower
  subpiece interval low_byte size = do
    higher ← if low_byte == 0 then ok interval else subpiece_higher interval low_byte
    if ltb size (bytesize higher) then subpiece_lower higher size else ok higher

  unfoldable pub int_2_comp : Strided → Outcome Strided
  int_2_comp interval = do
    above ← greater interval.start (bounds.signed_min_value (as_bit_length (bytesize interval)))
    ok (
        if above
        then strided (a.neg interval.end) (a.neg interval.start) interval.stride
        else new_top (bytesize interval))

  unfoldable pub bitwise_not : Strided → Strided
  bitwise_not interval =
      if a.equal interval.start interval.end
      then from_bitvector (a.into_bitnot interval.start)
      else new_top (bytesize interval)

  -- The interval of two bounds that have been computed without an overflow, and otherwise all values.
  abbrev unless_overflow : ℕ → Option api.Bitvector → Option api.Bitvector → ℕ → Strided
  unless_overflow size (some start) (some end) stride = strided start end stride
  unless_overflow size _ _ stride = new_top size

  unfoldable pub add : Strided → Strided → Outcome Strided
  unfolding signed_add_overflow_checked
  add interval rhs = do
    start ← signed_add_overflow_checked api a interval.start rhs.start
    end ← signed_add_overflow_checked api a interval.end rhs.end
    ok (unless_overflow (bytesize interval) start end (g.gcd interval.stride rhs.stride))

  unfoldable pub sub : Strided → Strided → Outcome Strided
  unfolding signed_sub_overflow_checked
  sub interval rhs = do
    start ← signed_sub_overflow_checked api a interval.start rhs.end
    end ← signed_sub_overflow_checked api a interval.end rhs.start
    ok (unless_overflow (bytesize interval) start end (g.gcd interval.stride rhs.stride))

  -- `signed_mult_with_overflow_flag(..).unwrap()`
  abbrev product : api.Bitvector → api.Bitvector → Outcome (api.Bitvector × Bool)
  unfolding signed_mult_with_overflow_flag
  product b c = do result ← signed_mult_with_overflow_flag api a b c; unwrap result

  unfoldable pub signed_mul : Strided → Strided → Outcome Strided
  unfolding product
  signed_mul interval rhs =
      if ltb 64 (as_bit_length (bytesize interval)) then ok (new_top (bytesize interval)) else (do
        (val1, overflow1) ← product interval.start rhs.start
        (val2, overflow2) ← product interval.start rhs.end
        (val3, overflow3) ← product interval.end rhs.start
        (val4, overflow4) ← product interval.end rhs.end
        if overflow1 || (overflow2 || (overflow3 || overflow4))
            then ok (new_top (bytesize interval))
            else (do
              min34 ← signed_min val3 val4
              min234 ← signed_min val2 min34
              min ← signed_min val1 min234
              max34 ← signed_max val3 val4
              max234 ← signed_max val2 max34
              max ← signed_max val1 max234
              ok (strided min max (g.gcd interval.stride rhs.stride))))

  unfoldable pub contains : Strided → api.Bitvector → Outcome Bool
  contains interval bitvec = if a.equal interval.start bitvec then ok true else do
    above ← unwrap (a.checked_sle interval.start bitvec)
    below ← if above then unwrap (a.checked_sle bitvec interval.end) else ok false
    if below
        then (do
          difference ← unwrap (a.checked_sub bitvec interval.start)
          ok (elim (a.try_to_u64 difference) [
            | some diff ↦ ltb 0 interval.stride && diff % interval.stride == 0
            | none ↦ true
          ]))
        else ok false
