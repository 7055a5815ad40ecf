-- ===== src/AbstractDomain/Interval/Widening.antt =====
-- src/cwe_checker_lib/src/abstract_domain/interval.rs: intervals with widening hints.
use fkie_cad_cwe_checker.Prelude.{
  ℕ, ◌+◌, ◌-◌, ◌%◌, ◌^◌, Bool, true, false, not, ◌&&◌, ◌||◌, ◌==◌, ltb, leb, Option, some, none,
  if◌then◌else◌,
}
use Prim.Native.Nat.{max}
use fkie_cad_cwe_checker.Prelude.Outcome.{Outcome, ok, ◌>>=◌, unwrap}
use fkie_cad_cwe_checker.Apint.{ApInt}
use fkie_cad_cwe_checker.Apint.Arithmetic.{Arithmetic}
use fkie_cad_cwe_checker.Apint.Signed.{Bounds, Gcd}
use fkie_cad_cwe_checker.IntermediateRepresentation.Bitvector.{
  resize_unsigned, signed_add_overflow_checked, signed_sub_overflow_checked,
}
use fkie_cad_cwe_checker.AbstractDomain.Interval.{
  Interval, Strided, strided, greater, bytesize, new_top, is_top, signed_merge,
  adjust_start_to_value_in_stride, adjust_end_to_value_in_stride,
}

pub record IntervalDomain (Bitvector : Type 0) : Type 0 where
  pub interval : Interval Bitvector
  pub widening_upper_bound : Option Bitvector
  pub widening_lower_bound : Option Bitvector
  pub widening_delay : ℕ

-- `((x - y) % stride + stride) % stride` of `i128`: the first remainder has the sign of the difference.
abbrev pub residue : ℕ → ℕ → ℕ → ℕ
residue x y stride =
    if leb y x then ((x - y) % stride + stride) % stride else (stride - (y - x) % stride) % stride

module _ (api : ApInt) (a : Arithmetic api) (bounds : Bounds api) (g : Gcd) where
  abbrev pub Widened : Type 0
  Widened = IntervalDomain api.Bitvector

  abbrev pub Value : Type 0
  Value = api.Bitvector

  -- `From<Interval>`
  abbrev pub from_interval : Strided api a bounds g → Widened
  from_interval interval = record {
    interval = interval;
    widening_upper_bound = none;
    widening_lower_bound = none;
    widening_delay = 0;
  }

  abbrev pub new_top_domain : ℕ → Widened
  new_top_domain size = from_interval (new_top api a bounds g size)

  abbrev pub ignores_stride : Strided api a bounds g → Bool
  ignores_stride interval = interval.stride == 0 || ltb 8 (bytesize api a bounds g interval)

  unfoldable pub round_up_to_stride_of : Value → Strided api a bounds g → Outcome (Option Value)
  unfolding signed_add_overflow_checked resize_unsigned
  round_up_to_stride_of bitvec interval = if ignores_stride interval then ok (some bitvec) else (do
    start ← unwrap (bounds.try_to_i128 interval.start)
    this ← unwrap (bounds.try_to_i128 bitvec)
    diff ←
        resize_unsigned api a (a.from_u64 (residue start this interval.stride % 2 ^ 64))
          (bytesize api a bounds g interval)
    signed_add_overflow_checked api a bitvec diff)

  unfoldable pub round_down_to_stride_of : Value → Strided api a bounds g → Outcome (Option Value)
  unfolding signed_sub_overflow_checked resize_unsigned
  round_down_to_stride_of bitvec interval =
      if ignores_stride interval then ok (some bitvec) else (do
        this ← unwrap (bounds.try_to_i128 bitvec)
        end ← unwrap (bounds.try_to_i128 interval.end)
        diff ←
            resize_unsigned api a (a.from_u64 (residue this end interval.stride % 2 ^ 64))
              (bytesize api a bounds g interval)
        signed_sub_overflow_checked api a bitvec diff)

  -- Whether `bound` is a better hint than the one there is, if any.
  abbrev pub improves_lower : Value → Option Value → Outcome Bool
  improves_lower bound none = ok true
  improves_lower bound (some previous_bound) = greater api a bounds g bound previous_bound

  abbrev pub improves_upper : Value → Option Value → Outcome Bool
  improves_upper bound none = ok true
  improves_upper bound (some previous_bound) = greater api a bounds g previous_bound bound

  unfoldable pub update_widening_lower_bound : Option Value → Widened → Outcome Widened
  unfolding round_up_to_stride_of
  update_widening_lower_bound none domain = ok domain
  update_widening_lower_bound (some bound) domain = do
    rounded ← round_up_to_stride_of bound domain.interval
    elim rounded [
      | none ↦ ok domain
      | some bound_value ↦ (do
        outside ← greater api a bounds g domain.interval.start bound_value
        better ←
            if outside then improves_lower bound_value domain.widening_lower_bound else ok false
        ok (if better then record domain { widening_lower_bound = some bound_value } else domain))
    ]

  unfoldable pub update_widening_upper_bound : Option Value → Widened → Outcome Widened
  unfolding round_down_to_stride_of
  update_widening_upper_bound none domain = ok domain
  update_widening_upper_bound (some bound) domain = do
    rounded ← round_down_to_stride_of bound domain.interval
    elim rounded [
      | none ↦ ok domain
      | some bound_value ↦ (do
        outside ← greater api a bounds g bound_value domain.interval.end
        better ←
            if outside then improves_upper bound_value domain.widening_upper_bound else ok false
        ok (if better then record domain { widening_upper_bound = some bound_value } else domain))
    ]

  -- Takes over the hints of two domains.
  unfoldable pub with_hints_of : Widened → Widened → Widened → Outcome Widened
  unfolding update_widening_lower_bound update_widening_upper_bound
  with_hints_of domain this other = do
    lower ← update_widening_lower_bound this.widening_lower_bound domain
    lower' ← update_widening_lower_bound other.widening_lower_bound lower
    upper ← update_widening_upper_bound this.widening_upper_bound lower'
    upper' ← update_widening_upper_bound other.widening_upper_bound upper
    ok (record upper' { widening_delay = max this.widening_delay other.widening_delay })

  unfoldable pub signed_merge_domains : Widened → Widened → Outcome Widened
  unfolding with_hints_of signed_merge
  signed_merge_domains this other = do
    interval ← signed_merge api a bounds g this.interval other.interval
    with_hints_of (from_interval interval) this other

  unfoldable pub equal_as_value_sets : Widened → Widened → Bool
  equal_as_value_sets this other =
      a.equal this.interval.start other.interval.start
      && (a.equal this.interval.end other.interval.end
          && this.interval.stride == other.interval.stride)

  -- The length of an interval, if it is a `u64`.
  abbrev pub length_of : Strided api a bounds g → Outcome (Option ℕ)
  length_of interval = do
    difference ← unwrap (a.checked_sub interval.end interval.start)
    ok (a.try_to_u64 difference)

  -- Whether the length is at most the threshold, whose sums wrap around.
  abbrev pub below_threshold : Widened → Option ℕ → Bool
  below_threshold domain none = false
  below_threshold domain (some length) = leb length (
      max ((domain.widening_delay + 1) % 2 ^ 64)
        ((domain.widening_delay + domain.interval.stride) % 2 ^ 64))

  -- The domain after a step of widening, and whether it has been widened.
  unfoldable pub widen_to_lower_bound : Bool → Widened → Outcome (Widened × Bool)
  unfolding adjust_start_to_value_in_stride
  widen_to_lower_bound moved domain = elim domain.widening_lower_bound [
    | none ↦ ok (domain, false)
    | some bound ↦
        if moved
        then (do
          interval ←
              adjust_start_to_value_in_stride api a bounds g
                (strided api a bounds g bound domain.interval.end domain.interval.stride)
          ok (record domain { interval = interval; widening_lower_bound = none }, true))
        else ok (domain, false)
  ]

  unfoldable pub widen_to_upper_bound : Bool → Widened → Outcome (Widened × Bool)
  unfolding adjust_end_to_value_in_stride
  widen_to_upper_bound moved domain = elim domain.widening_upper_bound [
    | none ↦ ok (domain, false)
    | some bound ↦
        if moved
        then (do
          interval ←
              adjust_end_to_value_in_stride api a bounds g
                (strided api a bounds g domain.interval.start bound domain.interval.stride)
          ok (record domain { interval = interval; widening_upper_bound = none }, true))
        else ok (domain, false)
  ]

  abbrev pub or_zero_length : Option ℕ → ℕ
  or_zero_length (some length) = length
  or_zero_length none = 0

  unfoldable pub widen : Widened → Widened → Widened → Outcome Widened
  unfolding widen_to_lower_bound widen_to_upper_bound
  widen this other merged = do
    (lower, to_lower) ←
        widen_to_lower_bound (not (a.equal this.interval.start other.interval.start)) merged
    (upper, to_upper) ←
        widen_to_upper_bound (not (a.equal this.interval.end other.interval.end)) lower
    if to_lower || to_upper
        then (do
          length ← length_of upper.interval
          ok (record upper { widening_delay = or_zero_length length }))
        else ok (new_top_domain (bytesize api a bounds g merged.interval))

  -- Whether the merged domain is left as it is.
  unfoldable pub keeps_merged : Widened → Widened → Widened → Outcome Bool
  unfolding is_top equal_as_value_sets
  keeps_merged this other merged =
      if equal_as_value_sets merged this || equal_as_value_sets merged other then ok true else (do
        all ← is_top api a bounds g merged.interval
        if all
            then ok true
            else (do length ← length_of merged.interval; ok (below_threshold merged length)))

  unfoldable pub signed_merge_and_widen : Widened → Widened → Outcome Widened
  unfolding signed_merge_domains widen keeps_merged
  signed_merge_and_widen this other = do
    merged ← signed_merge_domains this other
    keep ← keeps_merged this other merged
    if keep then ok merged else widen this other merged
