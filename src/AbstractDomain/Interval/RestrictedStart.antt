-- ===== src/AbstractDomain/Interval/RestrictedStart.antt =====
-- `add_signed_greater_equal_bound` of src/cwe_checker_lib/src/abstract_domain/interval.rs.
use fkie_cad_cwe_checker.AbstractDomain.Interval.Closed.{
  Domain, IsClosed, start-IsClosed, below_end, same_width-IsWhole,
}
use fkie_cad_cwe_checker.Prelude.{
  ℕ, ◌^◌, ◌/◌, ◌<◌, ◌≤◌, ◌≡◌, refl, ap, sym, ◌∙◌, arith, some, none, inl, inr, leb, Option, Bool,
  true, false, Bool-cases, below_or_not,
}
use fkie_cad_cwe_checker.Prelude.Outcome.{ok, unwrap}
use fkie_cad_cwe_checker.Apint.{ApInt}
use fkie_cad_cwe_checker.Apint.Arithmetic.{Arithmetic, IsArithmetic}
use fkie_cad_cwe_checker.Apint.Signed.{Bounds, IsBounds, Gcd}
use fkie_cad_cwe_checker.IntermediateRepresentation.Bitvector.Overflow.{integer}
use fkie_cad_cwe_checker.AbstractDomain.Interval.{strided}
use fkie_cad_cwe_checker.AbstractDomain.Interval.Represented.{Represents, integer-range}
use fkie_cad_cwe_checker.AbstractDomain.Interval.MergedStrides.{sle_integer, greater-integer}
use fkie_cad_cwe_checker.AbstractDomain.Interval.Adjusted.{adjust_start_to_value_in_stride-Starts}
use fkie_cad_cwe_checker.AbstractDomain.Interval.Hints.{All}
use fkie_cad_cwe_checker.AbstractDomain.Interval.Widening.{round_up_to_stride_of}
use fkie_cad_cwe_checker.AbstractDomain.Interval.Conditional.{
  hint_above, add_signed_greater_equal_bound,
}
use fkie_cad_cwe_checker.AbstractDomain.Interval.Rounded.{Raised, round_up_to_stride_of-Raised}
use fkie_cad_cwe_checker.AbstractDomain.Interval.Restricted.{AtLeast, Selects}

module _ (api : ApInt) (a : Arithmetic api) (value : api.Bitvector → ℕ)
    (laws : IsArithmetic api a value) (bounds : Bounds api) (limits : IsBounds api bounds value)
    (g : Gcd) where
  -- A bound that changes nothing lies below the start.
  hint_above-ok :
      (r : api.Bitvector) (domain : Domain api a value laws bounds limits g)
      (hint : Option api.Bitvector)
      → api.width r ≡ api.width domain.interval.start
      → All
          (λ u.
            (api.width u ≡ api.width domain.interval.start)
            × (integer api value u < integer api value domain.interval.start))
          hint
      → (t : Bool) × ((hint_above api a bounds g r hint ≡ ok t)
          × (t ≡ true → integer api value r ≤ integer api value domain.interval.start))
  hint_above-ok r domain none e h = (false, (refl, λ same. cc))
  hint_above-ok r domain (some u) e h = (
    leb (integer api value r) (integer api value u),
    (
      ap unwrap (sle_integer api a value laws bounds limits g r u (e ∙ sym h.0)),
      (λ same. ground (arith, h.1, same)),
    ),
  )

  restrict_start :
      (bound : api.Bitvector) (domain : Domain api a value laws bounds limits g)
      (o : Option api.Bitvector)
      → IsClosed api a value laws bounds limits g domain
      → api.width bound ≡ api.width domain.interval.start
      → round_up_to_stride_of api a bounds g bound domain.interval ≡ ok o
      → Raised api a value laws bounds limits g domain.interval bound o
      → Selects api a value laws bounds limits g
          (AtLeast api value bound)
          domain
          (add_signed_greater_equal_bound api a bounds g bound domain)
  unfolding add_signed_greater_equal_bound
  restrict_start bound domain none (v, last) e run cut = (
    none,
    (
      ground (arith, run),
      (
        (λ b x l.
            let (low, high) =
              integer-range api a value laws b (api.width bound) (x.0 ∙ sym e)
                (omega (arith, e, v.0.1)) in
            omega (arith, cut (integer api value b) x.1.1.0 x.1.1.1 l, high)),
        tt,
      ),
    ),
  )
  restrict_start bound domain (some r) (v, last) e run (wr, up, cut) =
      let w : api.width r ≡ api.width domain.interval.start = wr ∙ e in
      let kept : (b : api.Bitvector)
          → Represents api value domain.interval b
          → AtLeast api value bound b
          → AtLeast api value r b =
        λ b x l. cut (integer api value b) x.1.1.0 x.1.1.1 l in
      let (t, (hint, below)) = hint_above-ok r domain domain.widening_lower_bound w v.1.1.0 in
      let outside =
        greater-integer api a value laws bounds limits g domain.interval.start r (sym w) in
      let reached =
        sle_integer api a value laws bounds limits g r domain.interval.end (w ∙ sym v.1.0) in
      elim (Bool-cases t) [
        | inl unchanged ↦ (
          some domain,
          (
            ground (arith, run, hint, unchanged),
            (
              (refl, (v, last), omega arith, (λ b x l. x)),
              (λ b x. omega (arith, x.1.1.1, below unchanged, up)),
            ),
          ),
        )
        | inr moves ↦
            elim (below_or_not (integer api value r) (integer api value domain.interval.start)) [
              | inl beyond ↦ (
                some (record domain { widening_lower_bound = some r }),
                (
                  ground (arith, run, hint, moves, outside, beyond),
                  (
                    (
                      refl,
                      ((v.0, (v.1.0, ((w, beyond), v.1.1.1))), last),
                      omega arith,
                      (λ b x l. x),
                    ),
                    (λ b x. omega (arith, x.1.1.1, beyond, up)),
                  ),
                ),
              )
              | inr inside ↦
                  elim (below_or_not (integer api value domain.interval.end)
                    (integer api value r)) [
                      | inl empty ↦ (
                        none,
                        (
                          ground (arith, run, hint, moves, outside, inside, reached, empty),
                          ((λ b x l. omega (arith, kept b x l, empty, x.1.0)), tt),
                        ),
                      )
                      | inr ordered ↦
                          let i =
                            strided api a bounds g r domain.interval.end domain.interval.stride in
                          let (s, (adjusts, starts)) =
                            adjust_start_to_value_in_stride-Starts api a value laws bounds limits g
                              i
                              (
                                same_width-IsWhole api a value laws bounds limits g
                                    domain.interval.start r w v.0,
                                (v.1.0 ∙ sym w, ordered),
                              ) in
                          let (ws, (ends, lower, finer, within)) = starts in
                          (
                            some (record domain { interval = s; widening_lower_bound = none }),
                            (
                              ground (
                                arith, run, hint, moves, outside, inside, reached, ordered, adjusts,
                              ),
                              (
                                (
                                  ws ∙ w,
                                  start-IsClosed api a value laws bounds limits g domain r s
                                      (v, last) w ordered starts,
                                  finer,
                                  (λ b x l.
                                      let (k, h) =
                                        below_end api a value laws bounds limits g _ _
                                          domain.interval.stride _ last.1 x.1 in
                                      within b k (x.0 ∙ sym w) h (kept b x l)),
                                ),
                                (λ b x. omega (arith, x.1.1.1, lower, up)),
                              ),
                            ),
                          )
                    ]
            ]
      ]

  -- For a closed domain of the size of the bound, whose stride is at most half of the values of the
  -- width: `add_signed_greater_equal_bound` does not panic; its result is closed, of this size, has the values
  -- of the domain that are at least the bound and no value below it, and it is the error of an empty
  -- interval only if no value of the domain is at least the bound.
  pub add_signed_greater_equal_bound-Selects :
      (bound : api.Bitvector) (domain : Domain api a value laws bounds limits g)
      → IsClosed api a value laws bounds limits g domain
      → api.width bound ≡ api.width domain.interval.start
      → domain.interval.stride ≤ 2 ^ api.width bound / 2
      → Selects api a value laws bounds limits g
          (AtLeast api value bound)
          domain
          (add_signed_greater_equal_bound api a bounds g bound domain)
  add_signed_greater_equal_bound-Selects bound domain (v, last) e small =
      let (o, (run, cut)) =
        round_up_to_stride_of-Raised api a value laws bounds limits g bound domain.interval v.0 e
          small in
      restrict_start bound domain o (v, last) e run cut
