-- ===== src/AbstractDomain/Interval/RestrictedUnsigned.antt =====
-- The restrictions by an unsigned bound of src/cwe_checker_lib/src/abstract_domain/interval.rs.
use fkie_cad_cwe_checker.IntermediateRepresentation.Bitvector.Overflow.{integer}
use fkie_cad_cwe_checker.AbstractDomain.Interval.Signs.{
  integer-minus_one, minus_one-Stands, Sides, sides, integer-zero,
}
use fkie_cad_cwe_checker.AbstractDomain.Interval.Conditional.{
  one_like, add_unsigned_greater_equal_bound, add_signed_greater_equal_bound, zero_like,
  add_signed_less_equal_bound, add_unsigned_less_equal_bound,
}
use fkie_cad_cwe_checker.AbstractDomain.Interval.MergedStrides.{greater-integer}
use fkie_cad_cwe_checker.Prelude.{
  ℕ, ◌^◌, ◌/◌, ◌<◌, ◌≤◌, ◌≡◌, refl, sym, ◌∙◌, arith, some, inl, inr, below_or_not,
}
use fkie_cad_cwe_checker.Apint.{ApInt}
use fkie_cad_cwe_checker.Apint.Arithmetic.{Arithmetic, IsArithmetic}
use fkie_cad_cwe_checker.Apint.Signed.{Bounds, IsBounds, Gcd}
use fkie_cad_cwe_checker.AbstractDomain.Interval.Represented.{Represents}
use fkie_cad_cwe_checker.AbstractDomain.Interval.Closed.{Domain, IsClosed}
use fkie_cad_cwe_checker.AbstractDomain.Interval.Restricted.{
  Keeps-refl, Keeps-trans, Keeps, Returns,
}
use fkie_cad_cwe_checker.AbstractDomain.Interval.Keeping.{
  Fits, at_most, at_least, Fits-width, Fits-finer,
}

module _ (api : ApInt) (a : Arithmetic api) (value : api.Bitvector → ℕ)
    (laws : IsArithmetic api a value) (bounds : Bounds api) (limits : IsBounds api bounds value)
    (g : Gcd) where
  -- For a closed domain of the size of the bound, whose stride is at most half of the values of the width:
  -- `add_unsigned_less_equal_bound` does not panic, its result is closed, of this size and has all values
  -- of the domain whose numbers are at most that of the bound, and it is the error of an empty interval
  -- only if there are none.
  pub add_unsigned_less_equal_bound-Keeps :
      (bound : api.Bitvector) (domain : Domain api a value laws bounds limits g)
      → IsClosed api a value laws bounds limits g domain
      → api.width bound ≡ api.width domain.interval.start
      → domain.interval.stride ≤ 2 ^ api.width bound / 2
      → Returns api a value laws bounds limits g
          (Keeps api a value laws bounds limits g (λ b. value b ≤ value bound) domain)
          (add_unsigned_less_equal_bound api a bounds g bound domain)
  unfolding add_unsigned_less_equal_bound
  add_unsigned_less_equal_bound-Keeps bound domain closed e small =
      let w : ℕ = api.width bound in
      let p : 0 < w = omega (arith, e, closed.0.0.1) in
      let Q : api.Bitvector → Type 0 = λ b. value b ≤ value bound in
      let side : (b : api.Bitvector)
          → Represents api value domain.interval b
          → Sides api a value laws w b × (value b < 2 ^ w) =
        λ b x. sides api a value laws w b (x.0 ∙ sym e) p in
      let side' : (d : Domain api a value laws bounds limits g)
          → api.width d.interval.start ≡ api.width domain.interval.start
          → (b : api.Bitvector) → Represents api value d.interval b
          → Sides api a value laws w b × (value b < 2 ^ w) =
        λ d e' b x. sides api a value laws w b (x.0 ∙ e' ∙ sym e) p in
      let zero_stands = laws.zero_of-Stands w p in
      let fits_zero : Fits api a value laws bounds limits g (zero_like api a bounds g bound)
          domain =
        Fits-width api a value laws bounds limits g bound _ domain zero_stands.0 (e, small) in
      elim (sides api a value laws w bound refl p).0 [
        | inl (negative, at, high) ↦
            elim (sides api a value laws w domain.interval.end (closed.0.1.0 ∙ sym e) p).0 [
              | inl (negative', at', high') ↦
                  let (o, (run, kept)) =
                    at_most api a value laws bounds limits g Q bound domain closed (e, small)
                      (λ b x q. elim (side b x).0 [
                        | inl (n, ab, hb) ↦ omega (
                          arith,
                          ab,
                          hb,
                          q,
                          x.1.0,
                          x.1.1.1,
                          at,
                          at',
                          (side domain.interval.end closed.1).1,
                          (side b x).1,
                        )
                        | inr (n, ab, lb) ↦ omega (
                          arith,
                          ab,
                          lb,
                          q,
                          x.1.0,
                          x.1.1.1,
                          at,
                          at',
                          (side domain.interval.end closed.1).1,
                          (side b x).1,
                        )
                      ]) in
                  (o, (ground (arith, negative, negative', run), kept))
              | inr (positive', at', low') ↦
                  elim (sides api a value laws w domain.interval.start (sym e) p).0 [
                    | inl (negative'', at'', high'') ↦ (
                      some domain,
                      (
                        ground (arith, negative, positive', negative''),
                        Keeps-refl api a value laws bounds limits g Q domain closed,
                      ),
                    )
                    | inr (positive'', at'', low'') ↦
                        let (o, (run, kept)) =
                          at_least api a value laws bounds limits g Q
                            (zero_like api a bounds g bound) domain closed fits_zero
                            (λ b x q. elim (side b x).0 [
                              | inl (n, ab, hb) ↦ omega (
                                arith,
                                ab,
                                hb,
                                q,
                                x.1.0,
                                x.1.1.1,
                                at'',
                                integer-zero api a value laws w p,
                                (side b x).1,
                              )
                              | inr (n, ab, lb) ↦ omega (
                                arith,
                                ab,
                                lb,
                                q,
                                x.1.0,
                                x.1.1.1,
                                at'',
                                integer-zero api a value laws w p,
                                (side b x).1,
                              )
                            ]) in
                        (o, (ground (arith, negative, positive', positive'', run), kept))
                  ]
            ]
        | inr (positive, at, low) ↦
            let (o, (run, kept)) =
              Keeps-trans api a value laws bounds limits g Q domain _
                (λ d. add_signed_less_equal_bound api a bounds g bound d)
                (at_least api a value laws bounds limits g Q (zero_like api a bounds g bound) domain
                  closed fits_zero
                  (λ b x q. elim (side b x).0 [
                    | inl (n, ab, hb) ↦
                        omega
                          (arith, ab, hb, q, x.1.0, x.1.1.1, low, integer-zero api a value laws w p)
                    | inr (n, ab, lb) ↦
                        omega
                          (arith, ab, lb, q, x.1.0, x.1.1.1, low, integer-zero api a value laws w p)
                  ]))
                (λ d closed' w' finer.
                  at_most api a value laws bounds limits g Q bound d closed'
                    (Fits-finer api a value laws bounds limits g bound domain d (e, small) w' finer)
                    (λ b x q. elim (side' d w' b x).0 [
                      | inl (n, ab, hb) ↦
                          omega (arith, ab, hb, q, x.1.0, x.1.1.1, at, low, (side' d w' b x).1)
                      | inr (n, ab, lb) ↦
                          omega (arith, ab, lb, q, x.1.0, x.1.1.1, at, low, (side' d w' b x).1)
                    ])) in
            (o, (ground (arith, positive, run), kept))
      ]

  -- For a closed domain of the size of the bound, whose stride is at most half of the values of the width:
  -- `add_unsigned_greater_equal_bound` does not panic, its result is closed, of this size and has all values
  -- of the domain whose numbers are at least that of the bound, and it is the error of an empty interval
  -- only if there are none.
  pub add_unsigned_greater_equal_bound-Keeps :
      (bound : api.Bitvector) (domain : Domain api a value laws bounds limits g)
      → IsClosed api a value laws bounds limits g domain
      → api.width bound ≡ api.width domain.interval.start
      → domain.interval.stride ≤ 2 ^ api.width bound / 2
      → Returns api a value laws bounds limits g
          (Keeps api a value laws bounds limits g (λ b. value bound ≤ value b) domain)
          (add_unsigned_greater_equal_bound api a bounds g bound domain)
  unfolding add_unsigned_greater_equal_bound
  add_unsigned_greater_equal_bound-Keeps bound domain closed e small =
      let w : ℕ = api.width bound in
      let p : 0 < w = omega (arith, e, closed.0.0.1) in
      let Q : api.Bitvector → Type 0 = λ b. value bound ≤ value b in
      let side : (b : api.Bitvector)
          → Represents api value domain.interval b
          → Sides api a value laws w b × (value b < 2 ^ w) =
        λ b x. sides api a value laws w b (x.0 ∙ sym e) p in
      let last : api.Bitvector = a.neg (one_like api a bounds g bound) in
      let at_last = integer-minus_one api a value laws w p in
      let fits_last : Fits api a value laws bounds limits g last domain =
        Fits-width api a value laws bounds limits g bound last domain
          (minus_one-Stands api a value laws w p).0 (e, small) in
      let outside =
        greater-integer api a value laws bounds limits g bound domain.interval.end
          (e ∙ sym closed.0.1.0) in
      elim (sides api a value laws w bound refl p).0 [
        | inl (negative, at, high) ↦
            let (o, (run, kept)) =
              Keeps-trans api a value laws bounds limits g Q domain _
                (λ d. add_signed_greater_equal_bound api a bounds g bound d)
                (at_most api a value laws bounds limits g Q last domain closed fits_last (λ b x q.
                  elim (side b x).0 [
                    | inl (n, ab, hb) ↦
                        omega (arith, ab, hb, q, x.1.0, x.1.1.1, at_last, high, (side b x).1)
                    | inr (n, ab, lb) ↦
                        omega (arith, ab, lb, q, x.1.0, x.1.1.1, at_last, high, (side b x).1)
                  ]))
                (λ d closed' w' finer.
                  at_least api a value laws bounds limits g Q bound d closed'
                    (Fits-finer api a value laws bounds limits g bound domain d (e, small) w' finer)
                    (λ b x q.
                      let low = sides api a value laws w b (x.0 ∙ w' ∙ sym e) p in
                      elim low.0 [
                        | inl (n, ab, hb) ↦ omega (arith, ab, at, q)
                        | inr (n, ab, lb) ↦ absurd (omega (arith, lb, high, q))
                      ])) in
            (o, (ground (arith, negative, run), kept))
        | inr (positive, at, low) ↦
            elim (below_or_not (integer api value domain.interval.end) (integer api value bound)) [
              | inl below ↦
                  let (o, (run, kept)) =
                    at_most api a value laws bounds limits g Q last domain closed fits_last
                      (λ b x q. elim (side b x).0 [
                        | inl (n, ab, hb) ↦
                            omega
                              (arith, ab, hb, q, x.1.0, x.1.1.1, at_last, at, below, (side b x).1)
                        | inr (n, ab, lb) ↦
                            omega
                              (arith, ab, lb, q, x.1.0, x.1.1.1, at_last, at, below, (side b x).1)
                      ]) in
                  (o, (ground (arith, positive, outside, below, run), kept))
              | inr above ↦ elim (sides api a value laws w domain.interval.start (sym e) p).0 [
                | inl (negative', at', high') ↦ (
                  some domain,
                  (
                    ground (arith, positive, outside, above, negative'),
                    Keeps-refl api a value laws bounds limits g Q domain closed,
                  ),
                )
                | inr (positive', at', low') ↦
                    let (o, (run, kept)) =
                      at_least api a value laws bounds limits g Q bound domain closed (e, small)
                        (λ b x q. elim (side b x).0 [
                          | inl (n, ab, hb) ↦
                              omega (arith, ab, hb, q, x.1.0, x.1.1.1, at, at', (side b x).1)
                          | inr (n, ab, lb) ↦
                              omega (arith, ab, lb, q, x.1.0, x.1.1.1, at, at', (side b x).1)
                        ]) in
                    (o, (ground (arith, positive, outside, above, positive', run), kept))
              ]
            ]
      ]
