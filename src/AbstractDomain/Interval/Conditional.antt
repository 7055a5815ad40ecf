-- ===== src/AbstractDomain/Interval/Conditional.antt =====
-- src/cwe_checker_lib/src/abstract_domain/interval.rs: restricting an interval by a condition. `none` is the
-- error of an empty interval.
use fkie_cad_cwe_checker.Prelude.{Bool, false, ◌&&◌, Option, some, none, if◌then◌else◌}
use fkie_cad_cwe_checker.Prelude.Outcome.{Outcome, ok, ◌>>=◌, unwrap}
use fkie_cad_cwe_checker.Apint.{ApInt}
use fkie_cad_cwe_checker.Apint.Arithmetic.{Arithmetic}
use fkie_cad_cwe_checker.Apint.Signed.{Bounds, Gcd}
use fkie_cad_cwe_checker.AbstractDomain.Interval.{
  strided, greater, adjust_start_to_value_in_stride, adjust_end_to_value_in_stride,
}
use fkie_cad_cwe_checker.AbstractDomain.Interval.Widening.{
  IntervalDomain, round_up_to_stride_of, round_down_to_stride_of,
}

module _ (api : ApInt) (a : Arithmetic api) (bounds : Bounds api) (g : Gcd) where
  abbrev Domain : Type 0
  Domain = IntervalDomain api.Bitvector

  abbrev pub Restricted : Type 0
  Restricted = Outcome (Option Domain)

  -- `?`
  abbrev pub and_then_domain : Restricted → (Domain → Restricted) → Restricted
  and_then_domain restricted rest =
      restricted >>= (λ result. elim result [ none ↦ ok none | some domain ↦ rest domain ])

  abbrev pub with_end : api.Bitvector → Domain → Domain
  with_end bound domain = record domain {
    interval = strided api a bounds g domain.interval.start bound domain.interval.stride;
  }

  abbrev pub with_start : api.Bitvector → Domain → Domain
  with_start bound domain = record domain {
    interval = strided api a bounds g bound domain.interval.end domain.interval.stride;
  }

  unfoldable pub adjusted_end : Domain → Restricted
  unfolding adjust_end_to_value_in_stride
  adjusted_end domain = do
    interval ← adjust_end_to_value_in_stride api a bounds g domain.interval
    ok (some (record domain { interval = interval }))

  unfoldable pub adjusted_start : Domain → Restricted
  unfolding adjust_start_to_value_in_stride
  adjusted_start domain = do
    interval ← adjust_start_to_value_in_stride api a bounds g domain.interval
    ok (some (record domain { interval = interval }))

  -- The interval itself ends at a bound below its end.
  unfoldable cut_end : api.Bitvector → Domain → Restricted
  unfolding adjusted_end
  cut_end bound domain = do
    reached ← unwrap (a.checked_sle domain.interval.start bound)
    if reached then adjusted_end (with_end bound domain) else ok none

  unfoldable cut_start : api.Bitvector → Domain → Restricted
  unfolding adjusted_start
  cut_start bound domain = do
    reached ← unwrap (a.checked_sle bound domain.interval.end)
    if reached then adjusted_start (with_start bound domain) else ok none

  -- Whether the bound is at most the present hint, if there is one.
  abbrev pub hint_below : api.Bitvector → Option api.Bitvector → Outcome Bool
  hint_below bound none = ok false
  hint_below bound (some old_upper_bound) = unwrap (a.checked_sle old_upper_bound bound)

  abbrev pub hint_above : api.Bitvector → Option api.Bitvector → Outcome Bool
  hint_above bound none = ok false
  hint_above bound (some old_lower_bound) = unwrap (a.checked_sle bound old_lower_bound)

  unfoldable pub add_signed_less_equal_bound : api.Bitvector → Domain → Restricted
  unfolding round_down_to_stride_of cut_end
  add_signed_less_equal_bound bound domain = do
    rounded ← round_down_to_stride_of api a bounds g bound domain.interval
    elim rounded [
      | none ↦ ok none
      | some bound ↦ (do
        unchanged ← hint_below bound domain.widening_upper_bound
        if unchanged then ok (some domain) else (do
          outside ← greater api a bounds g bound domain.interval.end
          if outside
              then ok (some (record domain { widening_upper_bound = some bound }))
              else cut_end bound (record domain { widening_upper_bound = none })))
    ]

  unfoldable pub add_signed_greater_equal_bound : api.Bitvector → Domain → Restricted
  unfolding round_up_to_stride_of cut_start
  add_signed_greater_equal_bound bound domain = do
    rounded ← round_up_to_stride_of api a bounds g bound domain.interval
    elim rounded [
      | none ↦ ok none
      | some bound ↦ (do
        unchanged ← hint_above bound domain.widening_lower_bound
        if unchanged then ok (some domain) else (do
          outside ← greater api a bounds g domain.interval.start bound
          if outside
              then ok (some (record domain { widening_lower_bound = some bound }))
              else cut_start bound (record domain { widening_lower_bound = none })))
    ]

  abbrev pub zero_like : api.Bitvector → api.Bitvector
  zero_like bound = a.zero_of (api.width bound)

  abbrev pub one_like : api.Bitvector → api.Bitvector
  one_like bound = a.one_of (api.width bound)

  unfoldable pub add_unsigned_less_equal_bound : api.Bitvector → Domain → Restricted
  unfolding add_signed_less_equal_bound add_signed_greater_equal_bound
  add_unsigned_less_equal_bound bound domain =
      if a.sign_bit bound
      then if a.sign_bit domain.interval.end
        then add_signed_less_equal_bound bound domain
        else if a.sign_bit domain.interval.start
        then ok (some domain)
        else add_signed_greater_equal_bound (zero_like bound) domain
      else and_then_domain (add_signed_greater_equal_bound (zero_like bound) domain)
          (add_signed_less_equal_bound bound)

  unfoldable pub add_unsigned_greater_equal_bound : api.Bitvector → Domain → Restricted
  unfolding add_signed_less_equal_bound add_signed_greater_equal_bound
  add_unsigned_greater_equal_bound bound domain =
      if a.sign_bit bound
      then and_then_domain (add_signed_less_equal_bound (a.neg (one_like bound)) domain)
          (add_signed_greater_equal_bound bound)
      else (do
        below ← greater api a bounds g bound domain.interval.end
        if below
            then add_signed_less_equal_bound (a.neg (one_like bound)) domain
            else if a.sign_bit domain.interval.start
            then ok (some domain)
            else add_signed_greater_equal_bound bound domain)

  unfoldable pub add_not_equal_bound : api.Bitvector → Domain → Restricted
  unfolding add_signed_less_equal_bound add_signed_greater_equal_bound adjusted_start adjusted_end
  add_not_equal_bound bound domain =
      if a.equal domain.interval.start bound && a.equal domain.interval.end bound
      then ok none
      else (do
        below ← greater api a bounds g domain.interval.start bound
        if below
            then (do
              next ← unwrap (a.checked_add bound (one_like bound))
              add_signed_greater_equal_bound next domain)
            else if a.equal domain.interval.start bound
            then (do
              start ← unwrap (a.checked_add domain.interval.start (one_like bound))
              adjusted_start (with_start start domain))
            else (do
              above ← greater api a bounds g bound domain.interval.end
              if above
                  then (do
                    previous ← unwrap (a.checked_sub bound (one_like bound))
                    add_signed_less_equal_bound previous domain)
                  else if a.equal domain.interval.end bound
                  then (do
                    end ← unwrap (a.checked_sub domain.interval.end (one_like bound))
                    adjusted_end (with_end end domain))
                  else ok (some domain)))

  unfoldable pub without_widening_hints : Domain → Domain
  without_widening_hints domain = record domain {
    widening_upper_bound = none;
    widening_lower_bound = none;
    widening_delay = 0;
  }
