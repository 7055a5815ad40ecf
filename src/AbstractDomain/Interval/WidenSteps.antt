-- ===== src/AbstractDomain/Interval/WidenSteps.antt =====
-- The steps of `signed_merge_and_widen` of src/cwe_checker_lib/src/abstract_domain/interval.rs.
use fkie_cad_cwe_checker.Prelude.{
  ℕ, ◌<◌, ◌≡◌, refl, ap, sym, ◌∙◌, ◌⊎◌, arith, none, inl, inr, Option-cases, Bool, true, false,
  Bool-cases, ◌≤◌,
}
use mathlib.Core.Path.{subst}
use fkie_cad_cwe_checker.Prelude.Outcome.{Outcome, ok, then_ok}
use fkie_cad_cwe_checker.Apint.{ApInt}
use fkie_cad_cwe_checker.Apint.Arithmetic.{Arithmetic, IsArithmetic}
use fkie_cad_cwe_checker.Apint.Signed.{Bounds, IsBounds, Gcd}
use fkie_cad_cwe_checker.IntermediateRepresentation.Bitvector.Overflow.{integer}
use fkie_cad_cwe_checker.AbstractDomain.Interval.{Strided, strided}
use fkie_cad_cwe_checker.AbstractDomain.Interval.Represented.{Represents}
use fkie_cad_cwe_checker.AbstractDomain.Interval.Sound.{SameSize}
use fkie_cad_cwe_checker.AbstractDomain.Interval.Merged.{Covers, signed_merge-Covers}
use fkie_cad_cwe_checker.AbstractDomain.Interval.Adjusted.{adjust_start_to_value_in_stride-Starts}
use fkie_cad_cwe_checker.AbstractDomain.Interval.Lowered.{adjust_end_to_value_in_stride-Ends}
use fkie_cad_cwe_checker.AbstractDomain.Interval.Hints.{
  All, IsDomain, with_hints_of-Updates, All-map,
}
use fkie_cad_cwe_checker.AbstractDomain.Interval.Widening.{
  from_interval, signed_merge_domains, widen_to_lower_bound, widen_to_upper_bound,
}
use fkie_cad_cwe_checker.AbstractDomain.Interval.Closed.{
  Domain, IsClosed, same_width-IsWhole, below_end, start-IsClosed, end-IsClosed,
}

module _ (api : ApInt) (a : Arithmetic api) (value : api.Bitvector → ℕ)
    (laws : IsArithmetic api a value) (bounds : Bounds api) (limits : IsBounds api bounds value)
    (g : Gcd) where
  -- The end of what covers two intervals, of which each ends with one of its values, is one of its values.
  end_covered :
      (i j r : Strided api a bounds g)
      → Covers api a value laws bounds limits g i j r
      → Represents api value i i.end
      → Represents api value j j.end
      → Represents api value r r.end
  end_covered i j r c last last' = elim c.1 [
    | inl (inl e) ↦ subst (Represents api value r) (sym e) (c.2 i.end (inl last))
    | inl (inr e) ↦ subst (Represents api value r) (sym e) (c.2 j.end (inr last'))
    | inr represents ↦ represents
  ]

  -- A closed domain of the width, with all bitvectors of a set.
  abbrev pub Holds : ℕ → (api.Bitvector → Type 0) → Domain api a value laws bounds limits g → Type 0
  Holds w P d =
      (api.width d.interval.start ≡ w)
      × IsClosed api a value laws bounds limits g d
      × ((b : api.Bitvector) → P b → Represents api value d.interval b)

  abbrev Either :
      Domain api a value laws bounds limits g
      → Domain api a value laws bounds limits g
      → api.Bitvector
      → Type 0
  Either this other b = Represents api value this.interval b ⊎ Represents api value other.interval b

  pub signed_merge_domains-Holds :
      (this other : Domain api a value laws bounds limits g)
      → IsClosed api a value laws bounds limits g this
      → IsClosed api a value laws bounds limits g other
      → api.width other.interval.start ≡ api.width this.interval.start
      → (m : Domain api a value laws bounds limits g) × ((signed_merge_domains api a bounds g this
              other
            ≡ ok m)
          × Holds (api.width this.interval.start) (Either this other) m)
  unfolding signed_merge_domains
  signed_merge_domains-Holds this other (v, last) (v', last') e =
      let same : SameSize api a value laws bounds limits g this.interval other.interval =
        (v.0, (v.1.0, (e, v'.1.0 ∙ e))) in
      let (r, (run, c)) =
        signed_merge-Covers api a value laws bounds limits g this.interval other.interval same in
      let end = end_covered this.interval other.interval r c last last' in
      let fresh : IsDomain api a value laws bounds limits g (from_interval api a bounds g r) = (
        same_width-IsWhole api a value laws bounds limits g this.interval.start r.start c.0 v.0,
        (end.0, (tt, tt)),
      ) in
      let (m, (run', (kept, valid))) =
        with_hints_of-Updates api a value laws bounds limits g (from_interval api a bounds g r) this
          other fresh
          (All-map api a value laws bounds limits g this.widening_lower_bound (λ b x. x.0 ∙ sym c.0)
            v.1.1.0)
          (All-map api a value laws bounds limits g other.widening_lower_bound
            (λ b x. x.0 ∙ e ∙ sym c.0) v'.1.1.0)
          (All-map api a value laws bounds limits g this.widening_upper_bound (λ b x. x.0 ∙ sym c.0)
            v.1.1.1)
          (All-map api a value laws bounds limits g other.widening_upper_bound
            (λ b x. x.0 ∙ e ∙ sym c.0) v'.1.1.1) in
      (
        m,
        (
          then_ok _ _ r m run run',
          (
            ap (λ i. api.width i.start) kept ∙ c.0,
            (valid, subst (λ i. Represents api value i i.end) (sym kept) end),
            (λ b x. subst (λ i. Represents api value i b) (sym kept) (c.2 b x)),
          ),
        ),
      )

  -- A step of widening returns a closed domain with all values of `domain`.
  abbrev WidensTo :
      Domain api a value laws bounds limits g
      → Outcome (Domain api a value laws bounds limits g × Bool)
      → Type 0
  WidensTo domain run =
      (d : Domain api a value laws bounds limits g) × ((t : Bool) × ((run ≡ ok (d, t))
          × Holds (api.width domain.interval.start) (Represents api value domain.interval) d))

  pub widen_to_lower_bound-WidensTo :
      (moved : Bool) (domain : Domain api a value laws bounds limits g)
      → IsClosed api a value laws bounds limits g domain
      → WidensTo domain (widen_to_lower_bound api a bounds g moved domain)
  unfolding widen_to_lower_bound
  widen_to_lower_bound-WidensTo moved domain closed =
      elim (Option-cases domain.widening_lower_bound) [
        | inl unknown ↦ (domain, (false, (ground arith, (refl, closed, λ b x. x))))
        | inr (bound, known) ↦ elim (Bool-cases moved) [
          | inr still ↦ (domain, (false, (ground (arith, known), (refl, closed, λ b x. x))))
          | inl moves ↦
              let hint =
                subst
                  (All (λ b.
                    (api.width b ≡ api.width domain.interval.start)
                    × (integer api value b < integer api value domain.interval.start)))
                  known closed.0.1.1.0 in
              let below : integer api value bound ≤ integer api value domain.interval.end =
                omega (arith, hint.1, closed.1.1) in
              let i = strided api a bounds g bound domain.interval.end domain.interval.stride in
              let (r, (run, starts)) =
                adjust_start_to_value_in_stride-Starts api a value laws bounds limits g i (
                  same_width-IsWhole api a value laws bounds limits g domain.interval.start bound
                      hint.0 closed.0.0,
                  (closed.0.1.0 ∙ sym hint.0, below),
                ) in
              let (we, (ends, up, finer, within)) = starts in
              (
                record domain { interval = r; widening_lower_bound = none },
                (
                  true,
                  (
                    ground (arith, known, moves, run),
                    (
                      we ∙ hint.0,
                      start-IsClosed api a value laws bounds limits g domain bound r closed hint.0
                          below starts,
                      (λ b x.
                          let (k, e) =
                            below_end api a value laws bounds limits g _ _ domain.interval.stride _
                              closed.1.1 x.1 in
                          within b k (x.0 ∙ sym hint.0) e (omega (arith, hint.1, x.1.1.1))),
                    ),
                  ),
                ),
              )
        ]
      ]

  pub widen_to_upper_bound-WidensTo :
      (moved : Bool) (domain : Domain api a value laws bounds limits g)
      → IsClosed api a value laws bounds limits g domain
      → WidensTo domain (widen_to_upper_bound api a bounds g moved domain)
  unfolding widen_to_upper_bound
  widen_to_upper_bound-WidensTo moved domain closed =
      elim (Option-cases domain.widening_upper_bound) [
        | inl unknown ↦ (domain, (false, (ground arith, (refl, closed, λ b x. x))))
        | inr (bound, known) ↦ elim (Bool-cases moved) [
          | inr still ↦ (domain, (false, (ground (arith, known), (refl, closed, λ b x. x))))
          | inl moves ↦
              let hint =
                subst
                  (All (λ b.
                    (api.width b ≡ api.width domain.interval.start)
                    × (integer api value domain.interval.end < integer api value b)))
                  known closed.0.1.1.1 in
              let i = strided api a bounds g domain.interval.start bound domain.interval.stride in
              let (r, (run, ends)) =
                adjust_end_to_value_in_stride-Ends api a value laws bounds limits g i
                  (closed.0.0, (hint.0, omega (arith, hint.1, closed.1.1))) in
              let (starts, we, down, finer, last, within) = ends in
              (
                record domain { interval = r; widening_upper_bound = none },
                (
                  true,
                  (
                    ground (arith, known, moves, run),
                    (
                      ap api.width starts,
                      end-IsClosed api a value laws bounds limits g domain bound r closed ends,
                      (λ b x. within b x.1.1.0 x.0 x.1.1.1 (omega (arith, hint.1, x.1.0))),
                    ),
                  ),
                ),
              )
        ]
      ]
