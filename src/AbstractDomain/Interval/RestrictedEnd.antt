-- ===== src/AbstractDomain/Interval/RestrictedEnd.antt =====
-- `add_signed_less_equal_bound` of src/cwe_checker_lib/src/abstract_domain/interval.rs.
use fkie_cad_cwe_checker.AbstractDomain.Interval.Closed.{Domain, IsClosed, end-IsClosed, below_end}
use fkie_cad_cwe_checker.AbstractDomain.Interval.Restricted.{Selects, AtMost}
use fkie_cad_cwe_checker.Prelude.{
  ℕ, ◌^◌, ◌/◌, ◌<◌, ◌≤◌, ◌≡◌, refl, ap, sym, ◌∙◌, arith, some, none, inl, inr, leb, Option, Bool,
  true, false, Bool-cases, below_or_not,
}
use fkie_cad_cwe_checker.Prelude.Outcome.{ok, unwrap}
use fkie_cad_cwe_checker.Apint.{ApInt}
use fkie_cad_cwe_checker.Apint.Arithmetic.{Arithmetic, IsArithmetic}
use fkie_cad_cwe_checker.Apint.Signed.{Bounds, IsBounds, Gcd}
use fkie_cad_cwe_checker.IntermediateRepresentation.Bitvector.Overflow.{integer}
use fkie_cad_cwe_checker.AbstractDomain.Interval.{strided}
use fkie_cad_cwe_checker.AbstractDomain.Interval.Represented.{Represents, integer-range}
use fkie_cad_cwe_checker.AbstractDomain.Interval.MergedStrides.{sle_integer, greater-integer}
use fkie_cad_cwe_checker.AbstractDomain.Interval.Lowered.{adjust_end_to_value_in_stride-Ends}
use fkie_cad_cwe_checker.AbstractDomain.Interval.Hints.{All}
use fkie_cad_cwe_checker.AbstractDomain.Interval.Widening.{round_down_to_stride_of}
use fkie_cad_cwe_checker.AbstractDomain.Interval.Conditional.{
  hint_below, add_signed_less_equal_bound,
}
use fkie_cad_cwe_checker.AbstractDomain.Interval.Rounded.{Cut, round_down_to_stride_of-Cut}

module _ (api : ApInt) (a : Arithmetic api) (value : api.Bitvector → ℕ)
    (laws : IsArithmetic api a value) (bounds : Bounds api) (limits : IsBounds api bounds value)
    (g : Gcd) where
  -- A bound that changes nothing lies above the end.
  hint_below-ok :
      (r : api.Bitvector) (domain : Domain api a value laws bounds limits g)
      (hint : Option api.Bitvector)
      → api.width r ≡ api.width domain.interval.start
      → All
          (λ u.
            (api.width u ≡ api.width domain.interval.start)
            × (integer api value domain.interval.end < integer api value u))
          hint
      → (t : Bool) × ((hint_below api a bounds g r hint ≡ ok t)
          × (t ≡ true → integer api value domain.interval.end ≤ integer api value r))
  hint_below-ok r domain none e h = (false, (refl, λ same. cc))
  hint_below-ok r domain (some u) e h = (
    leb (integer api value u) (integer api value r),
    (
      ap unwrap (sle_integer api a value laws bounds limits g u r (h.0 ∙ sym e)),
      (λ same. ground (arith, h.1, same)),
    ),
  )

  restrict_end :
      (bound : api.Bitvector) (domain : Domain api a value laws bounds limits g)
      (o : Option api.Bitvector)
      → IsClosed api a value laws bounds limits g domain
      → api.width bound ≡ api.width domain.interval.start
      → round_down_to_stride_of api a bounds g bound domain.interval ≡ ok o
      → Cut api a value laws bounds limits g domain.interval bound o
      → Selects api a value laws bounds limits g
          (AtMost api value bound)
          domain
          (add_signed_less_equal_bound api a bounds g bound domain)
  unfolding add_signed_less_equal_bound
  restrict_end bound domain none (v, last) e run cut = (
    none,
    (
      ground (arith, run),
      (
        (λ b x l.
            let (k, h) =
              below_end api a value laws bounds limits g _ _ domain.interval.stride _ last.1 x.1 in
            let (low, high) =
              integer-range api a value laws b (api.width bound) (x.0 ∙ sym e)
                (omega (arith, e, v.0.1)) in
            omega (arith, cut (integer api value b) k h l, low)),
        tt,
      ),
    ),
  )
  restrict_end bound domain (some r) (v, last) e run (wr, down, cut) =
      let w : api.width r ≡ api.width domain.interval.start = wr ∙ e in
      let kept : (b : api.Bitvector)
          → Represents api value domain.interval b
          → AtMost api value bound b
          → AtMost api value r b =
        λ b x l.
          let (k, h) =
            below_end api a value laws bounds limits g _ _ domain.interval.stride _ last.1 x.1 in
          cut (integer api value b) k h l in
      let (t, (hint, above)) = hint_below-ok r domain domain.widening_upper_bound w v.1.1.1 in
      let outside =
        greater-integer api a value laws bounds limits g r domain.interval.end (w ∙ sym v.1.0) in
      let reached = sle_integer api a value laws bounds limits g domain.interval.start r (sym w) in
      elim (Bool-cases t) [
        | inl unchanged ↦ (
          some domain,
          (
            ground (arith, run, hint, unchanged),
            (
              (refl, (v, last), omega arith, (λ b x l. x)),
              (λ b x. omega (arith, x.1.0, above unchanged, down)),
            ),
          ),
        )
        | inr moves ↦
            elim (below_or_not (integer api value domain.interval.end) (integer api value r)) [
              | inl beyond ↦ (
                some (record domain { widening_upper_bound = some r }),
                (
                  ground (arith, run, hint, moves, outside, beyond),
                  (
                    (
                      refl,
                      ((v.0, (v.1.0, (v.1.1.0, (w, beyond)))), last),
                      omega arith,
                      (λ b x l. x),
                    ),
                    (λ b x. omega (arith, x.1.0, beyond, down)),
                  ),
                ),
              )
              | inr inside ↦
                  elim (below_or_not (integer api value r)
                    (integer api value domain.interval.start)) [
                      | inl empty ↦ (
                        none,
                        (
                          ground (arith, run, hint, moves, outside, inside, reached, empty),
                          ((λ b x l. omega (arith, kept b x l, empty, x.1.1.1)), tt),
                        ),
                      )
                      | inr ordered ↦
                          let i =
                            strided api a bounds g domain.interval.start r domain.interval.stride in
                          let (s, (adjusts, ends)) =
                            adjust_end_to_value_in_stride-Ends api a value laws bounds limits g i
                              (v.0, (w, ordered)) in
                          let (starts, we, lower, finer, last', within) = ends in
                          (
                            some (record domain { interval = s; widening_upper_bound = none }),
                            (
                              ground (
                                arith, run, hint, moves, outside, inside, reached, ordered, adjusts,
                              ),
                              (
                                (
                                  ap api.width starts,
                                  end-IsClosed api a value laws bounds limits g domain r s (v, last)
                                      ends,
                                  finer,
                                  (λ b x l. within b x.1.1.0 x.0 x.1.1.1 (kept b x l)),
                                ),
                                (λ b x. omega (arith, x.1.0, lower, down)),
                              ),
                            ),
                          )
                    ]
            ]
      ]

  -- For a closed domain of the size of the bound, whose stride is at most half of the values of the
  -- width: `add_signed_less_equal_bound` does not panic; its result is closed, of this size, has the values
  -- of the domain that are at most the bound and no value above it, and it is the error of an empty
  -- interval only if no value of the domain is at most the bound.
  pub add_signed_less_equal_bound-Selects :
      (bound : api.Bitvector) (domain : Domain api a value laws bounds limits g)
      → IsClosed api a value laws bounds limits g domain
      → api.width bound ≡ api.width domain.interval.start
      → domain.interval.stride ≤ 2 ^ api.width bound / 2
      → Selects api a value laws bounds limits g
          (AtMost api value bound)
          domain
          (add_signed_less_equal_bound api a bounds g bound domain)
  add_signed_less_equal_bound-Selects bound domain (v, last) e small =
      let (o, (run, cut)) =
        round_down_to_stride_of-Cut api a value laws bounds limits g bound domain.interval v.0 v.1.0
          e small in
      restrict_end bound domain o (v, last) e run cut
