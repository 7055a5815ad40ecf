-- ===== src/AbstractDomain/Interval/Widened.antt =====
-- `signed_merge_and_widen` of src/cwe_checker_lib/src/abstract_domain/interval.rs.
use fkie_cad_cwe_checker.Prelude.{
  ℕ, ◌<◌, ◌≡◌, refl, ap, sym, ◌∙◌, ◌⊎◌, arith, inl, inr, Option, Bool, true, not, ◌||◌, Bool-cases,
}
use fkie_cad_cwe_checker.Prelude.Outcome.{ok, unwrap, then_ok}
use fkie_cad_cwe_checker.Apint.{ApInt, byte_size_from}
use fkie_cad_cwe_checker.Apint.Arithmetic.{Arithmetic, IsArithmetic}
use fkie_cad_cwe_checker.Apint.Signed.{Bounds, IsBounds, Gcd}
use fkie_cad_cwe_checker.IntermediateRepresentation.Bitvector.{as_bit_length}
use fkie_cad_cwe_checker.IntermediateRepresentation.Bitvector.Yields.{IsWhole}
use fkie_cad_cwe_checker.AbstractDomain.Interval.{Strided, bytesize, is_top}
use fkie_cad_cwe_checker.AbstractDomain.Interval.Represented.{Represents, new_top-Represents}
use fkie_cad_cwe_checker.AbstractDomain.Interval.Hints.{IsDomain}
use fkie_cad_cwe_checker.AbstractDomain.Interval.Widening.{
  new_top_domain, equal_as_value_sets, length_of, below_threshold, widen, keeps_merged,
  signed_merge_and_widen, or_zero_length,
}
use fkie_cad_cwe_checker.AbstractDomain.Interval.Closed.{Domain, IsClosed, same_width-IsWhole}
use fkie_cad_cwe_checker.AbstractDomain.Interval.WidenSteps.{
  Holds, signed_merge_domains-Holds, widen_to_lower_bound-WidensTo, widen_to_upper_bound-WidensTo,
}

module _ (api : ApInt) (a : Arithmetic api) (value : api.Bitvector → ℕ)
    (laws : IsArithmetic api a value) (bounds : Bounds api) (limits : IsBounds api bounds value)
    (g : Gcd) where
  length_of-ok :
      (i : Strided api a bounds g)
      → api.width i.end ≡ api.width i.start
      → (o : Option ℕ) × (length_of api a bounds g i ≡ ok o)
  length_of-ok i e =
      let (d, q, s) = laws.checked_sub-Gives i.end i.start e in
      (a.try_to_u64 d, then_ok _ _ d (a.try_to_u64 d) (ap unwrap q) refl)

  is_top-ok :
      (i : Strided api a bounds g)
      → IsWhole api i.start
      → (t : Bool) × (is_top api a bounds g i ≡ ok t)
  unfolding is_top
  is_top-ok i whole =
      let (d, q, s) =
        laws.checked_sub-Gives i.start (a.one_of (api.width i.start))
          (sym (laws.one_of-Stands (api.width i.start) whole.1).0) in
      (_, then_ok _ _ d _ (ap unwrap q) refl)

  keeps_merged-ok :
      (this other merged : Domain api a value laws bounds limits g)
      → IsDomain api a value laws bounds limits g merged
      → (t : Bool) × (keeps_merged api a bounds g this other merged ≡ ok t)
  unfolding keeps_merged
  keeps_merged-ok this other merged v =
      let (all, run) = is_top-ok merged.interval v.0 in
      let (o, run') = length_of-ok merged.interval v.1.0 in
      elim (Bool-cases (
        equal_as_value_sets api a bounds g merged this
        || equal_as_value_sets api a bounds g merged other)) [
          | inl same ↦ (true, ground arith)
          | inr differs ↦ elim (Bool-cases all) [
            | inl top ↦ (true, ground (arith, run, top))
            | inr bounded ↦
                (below_threshold api a bounds g merged o, ground (arith, run, bounded, run'))
          ]
        ]

  top-Holds :
      (c : api.Bitvector)
      → IsWhole api c
      → Holds api a value laws bounds limits g
          (api.width c)
          (λ b. api.width b ≡ api.width c)
          (new_top_domain api a bounds g (byte_size_from (api.width c)))
  top-Holds c whole =
      let size : ℕ = byte_size_from (api.width c) in
      let p : 0 < size = omega (arith, whole.0, whole.1) in
      let least = limits.signed_min_value-Stands (as_bit_length size) (omega arith) in
      let greatest = limits.signed_max_value-Stands (as_bit_length size) (omega arith) in
      let all = new_top-Represents api a value laws bounds limits g size in
      (
        least.0 ∙ sym whole.0,
        (
          (
            same_width-IsWhole api a value laws bounds limits g c
                (bounds.signed_min_value (as_bit_length size)) (least.0 ∙ sym whole.0) whole,
            (greatest.0 ∙ sym least.0, (tt, tt)),
          ),
          all _ p greatest.0,
        ),
        (λ b e. all b p (e ∙ whole.0)),
      )

  widen-Holds :
      (this other merged : Domain api a value laws bounds limits g)
      → IsClosed api a value laws bounds limits g merged
      → (r : Domain api a value laws bounds limits g) × ((widen api a bounds g this other merged
            ≡ ok r)
          × Holds api a value laws bounds limits g
              (api.width merged.interval.start)
              (Represents api value merged.interval)
              r)
  unfolding widen
  widen-Holds this other merged closed =
      let (lower, (t, (run, (w, closed', within)))) =
        widen_to_lower_bound-WidensTo api a value laws bounds limits g
          (not (a.equal this.interval.start other.interval.start)) merged closed in
      let (upper, (t', (run', (w', joined, within')))) =
        widen_to_upper_bound-WidensTo api a value laws bounds limits g
          (not (a.equal this.interval.end other.interval.end)) lower closed' in
      let (o, run'') = length_of-ok upper.interval joined.0.1.0 in
      let (wide, all_closed, all) = top-Holds merged.interval.start closed.0.0 in
      elim (Bool-cases (t || t')) [
        | inl widened ↦ (
          record upper { widening_delay = or_zero_length api a bounds g o },
          (
            ground (arith, run, run', run'', widened),
            (w' ∙ w, joined, (λ b x. within' b (within b x))),
          ),
        )
        | inr neither ↦ (
          new_top_domain api a bounds g (bytesize api a bounds g merged.interval),
          (ground (arith, run, run', neither), (wide, all_closed, (λ b x. all b x.0))),
        )
      ]

  -- For closed domains (of whole bytes, with hints outside of their interval, whose end is one of their
  -- values) of the same size: `signed_merge_and_widen` does not panic, and its result is a closed
  -- domain of this size with every bitvector that one of the two domains stands for.
  pub signed_merge_and_widen-Represents :
      (this other : Domain api a value laws bounds limits g)
      → IsClosed api a value laws bounds limits g this
      → IsClosed api a value laws bounds limits g other
      → api.width other.interval.start ≡ api.width this.interval.start
      → (r : Domain api a value laws bounds limits g) × ((signed_merge_and_widen api a bounds g this
              other
            ≡ ok r)
          × (api.width r.interval.start ≡ api.width this.interval.start)
          × IsClosed api a value laws bounds limits g r
          × ((b : api.Bitvector)
              → Represents api value this.interval b ⊎ Represents api value other.interval b
              → Represents api value r.interval b))
  unfolding signed_merge_and_widen
  signed_merge_and_widen-Represents this other closed closed' e =
      let (m, (run, (w, joined, merges))) =
        signed_merge_domains-Holds api a value laws bounds limits g this other closed closed' e in
      let (t, keeps) = keeps_merged-ok this other m joined.0 in
      let (r, (run', (w', wider, within))) = widen-Holds this other m joined in
      elim (Bool-cases t) [
        | inl keep ↦ (m, (ground (arith, run, keeps, keep), w, joined, merges))
        | inr wide ↦ (
          r,
          (ground (arith, run, keeps, wide, run'), w' ∙ w, wider, (λ b x. within b (merges b x))),
        )
      ]
