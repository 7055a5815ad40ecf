-- ===== src/AbstractDomain/Interval/Merged.antt =====
-- The merge of two intervals, and the bitvectors that they stand for.
use fkie_cad_cwe_checker.IntermediateRepresentation.Bitvector.{as_bit_length}
use fkie_cad_cwe_checker.Prelude.{
  ℕ, ◌<◌, ◌≤◌, ◌≡◌, refl, ap, sym, ◌∙◌, arith, inl, inr, ltb, true, false, ◌⊎◌, Bool-cases,
  below_or_not,
}
use mathlib.Core.Path.{subst}
use fkie_cad_cwe_checker.Prelude.Outcome.{ok, unwrap, then_ok}
use fkie_cad_cwe_checker.Apint.{ApInt}
use fkie_cad_cwe_checker.Apint.Arithmetic.{Arithmetic, IsArithmetic}
use fkie_cad_cwe_checker.Apint.Signed.{Bounds, IsBounds, Gcd}
use fkie_cad_cwe_checker.IntermediateRepresentation.Bitvector.Overflow.{integer}
use fkie_cad_cwe_checker.AbstractDomain.Interval.{
  Strided, strided, new_top, bytesize, greater, signed_min, signed_max, merged_stride,
  merge_ordered, signed_merge,
}
use fkie_cad_cwe_checker.AbstractDomain.Interval.Represented.{Represents, new_top-Represents}
use fkie_cad_cwe_checker.AbstractDomain.Interval.Sound.{SameSize}
use fkie_cad_cwe_checker.AbstractDomain.Interval.MergedStrides.{
  sle_integer, greater-integer, difference_value, integers_of_either, swapped, from_low-Represents,
  common_divisor,
}

module _ (api : ApInt) (a : Arithmetic api) (value : api.Bitvector → ℕ)
    (laws : IsArithmetic api a value) (bounds : Bounds api) (limits : IsBounds api bounds value)
    (g : Gcd) where
  signed_max-Above :
      (b c : api.Bitvector)
      → api.width b ≡ api.width c
      → (e : api.Bitvector) × ((signed_max api a bounds g b c ≡ ok e)
          × (((e ≡ b) ⊎ (e ≡ c))
              × ((integer api value b ≤ integer api value e)
                  × (integer api value c ≤ integer api value e))))
  signed_max-Above b c e = elim (below_or_not (integer api value b) (integer api value c)) [
    | inl h ↦ (
      c,
      (
        ground (arith, sle_integer api a value laws bounds limits g c b (sym e)),
        (inr refl, (omega arith, omega arith)),
      ),
    )
    | inr h ↦ (
      b,
      (
        ground (arith, sle_integer api a value laws bounds limits g c b (sym e)),
        (inl refl, (omega arith, omega arith)),
      ),
    )
  ]

  low_first :
      (b c : api.Bitvector)
      → api.width b ≡ api.width c
      → integer api value b ≤ integer api value c
      → (signed_min api a bounds g b c ≡ ok b) × (greater api a bounds g b c ≡ ok false)
  low_first b c e h = (
    ground (arith, sle_integer api a value laws bounds limits g b c e),
    greater-integer api a value laws bounds limits g b c e ∙ ap ok (ground arith),
  )

  low_second :
      (b c : api.Bitvector)
      → api.width b ≡ api.width c
      → integer api value c < integer api value b
      → (signed_min api a bounds g b c ≡ ok c) × (greater api a bounds g b c ≡ ok true)
  low_second b c e h = (
    ground (arith, sle_integer api a value laws bounds limits g b c e),
    greater-integer api a value laws bounds limits g b c e ∙ ap ok (ground arith),
  )

  -- The interval is of the size of both and stands for their bitvectors; it ends where one of them
  -- ends, or with one of its values.
  abbrev pub Covers :
      Strided api a bounds g → Strided api a bounds g → Strided api a bounds g → Type 0
  Covers i j r =
      (api.width r.start ≡ api.width i.start)
      × (((r.end ≡ i.end) ⊎ (r.end ≡ j.end)) ⊎ Represents api value r r.end)
      × ((b : api.Bitvector)
          → Represents api value i b ⊎ Represents api value j b
          → Represents api value r b)

  merge_ordered-Covers :
      (i j : Strided api a bounds g)
      → SameSize api a value laws bounds limits g i j
      → (r : Strided api a bounds g) × ((merge_ordered api a bounds g i j ≡ ok r) × Covers i j r)
  unfolding merge_ordered
  merge_ordered-Covers i j same =
      let starts : api.width i.start ≡ api.width j.start = sym same.1.1.0 in
      let (e, (run_end, (which, (above, above')))) =
        signed_max-Above i.end j.end (same.1.0 ∙ sym same.1.1.1) in
      let bounds_at : api.Bitvector → api.Bitvector → Strided api a bounds g = λ start d.
        strided api a bounds g start e
          (merged_stride api a bounds g i.stride j.stride (a.try_to_u64 d)) in
      elim (below_or_not (integer api value j.start) (integer api value i.start)) [
        | inl h ↦
            let (run_start, run_above) = low_second i.start j.start starts h in
            let (d, q, s) = laws.checked_sub-Gives i.start j.start starts in
            let (u, v) =
              common_divisor api a value laws bounds limits g i.stride j.stride (value d) in
            (
              bounds_at j.start d,
              (
                then_ok _ _ j.start _ run_start (
                    then_ok _ _ e _ run_end
                      (then_ok _ _ true _ run_above (then_ok _ _ d _ (ap unwrap q) refl))),
                (
                  sym starts,
                  inl which,
                  (λ b x.
                      from_low-Represents api a value laws bounds limits g j i i.stride j.stride d e
                        b
                        (difference_value api a value laws bounds limits g i.start j.start d starts
                          same.0.1 s (omega arith))
                        v u above' above starts (swapped api a value laws bounds limits g x)),
                ),
              ),
            )
        | inr h ↦
            let (run_start, run_above) = low_first i.start j.start starts h in
            let (d, q, s) = laws.checked_sub-Gives j.start i.start (sym starts) in
            let (u, v) =
              common_divisor api a value laws bounds limits g i.stride j.stride (value d) in
            (
              bounds_at i.start d,
              (
                then_ok _ _ i.start _ run_start (
                    then_ok _ _ e _ run_end
                      (then_ok _ _ false _ run_above (then_ok _ _ d _ (ap unwrap q) refl))),
                (
                  refl,
                  inl which,
                  (λ b x.
                      from_low-Represents api a value laws bounds limits g i j i.stride j.stride d e
                        b
                        (difference_value api a value laws bounds limits g j.start i.start d
                          (sym starts) (subst (λ w. 0 < w) starts same.0.1) s h)
                        u v above above' (sym starts) x),
                ),
              ),
            )
      ]

  new_top-Covers :
      (i j : Strided api a bounds g)
      → SameSize api a value laws bounds limits g i j
      → Covers i j (new_top api a bounds g (bytesize api a bounds g i))
  new_top-Covers i j same =
      let size : ℕ = bytesize api a bounds g i in
      let p : 0 < size = omega (arith, same.0.0, same.0.1) in
      let represents = new_top-Represents api a value laws bounds limits g size in
      let least = limits.signed_min_value-Stands (as_bit_length size) (omega arith) in
      let greatest = limits.signed_max_value-Stands (as_bit_length size) (omega arith) in
      (
        least.0 ∙ sym same.0.0,
        inr (represents _ p greatest.0),
        (λ b x. represents b p (
            (integers_of_either api a value laws bounds limits g i j b same.1.1.0 x).0 ∙ same.0.0)),
      )

  pub signed_merge-Covers :
      (i j : Strided api a bounds g)
      → SameSize api a value laws bounds limits g i j
      → (r : Strided api a bounds g) × ((signed_merge api a bounds g i j ≡ ok r) × Covers i j r)
  unfolding signed_merge
  signed_merge-Covers i j same =
      let (r, (run, covers)) = merge_ordered-Covers i j same in
      let wraps = greater-integer api a value laws bounds limits g i.start i.end (sym same.1.0) in
      let wraps' =
        greater-integer api a value laws bounds limits g j.start j.end
          (same.1.1.0 ∙ sym same.1.1.1) in
      let top : Strided api a bounds g = new_top api a bounds g (bytesize api a bounds g i) in
      let top_covers = new_top-Covers i j same in
      elim (Bool-cases (ltb (integer api value i.end) (integer api value i.start))) [
        | inl h ↦ (top, (then_ok _ _ true _ (wraps ∙ ap ok h) refl, top_covers))
        | inr h ↦ elim (Bool-cases (ltb (integer api value j.end) (integer api value j.start))) [
          | inl h' ↦ (
            top,
            (
              then_ok _ _ false _ (wraps ∙ ap ok h) (then_ok _ _ true _ (wraps' ∙ ap ok h') refl),
              top_covers,
            ),
          )
          | inr h' ↦ (
            r,
            (
              then_ok _ _ false _ (wraps ∙ ap ok h) (then_ok _ _ false _ (wraps' ∙ ap ok h') run),
              covers,
            ),
          )
        ]
      ]

  -- For intervals of the same size, in whole bytes: `signed_merge` does not panic, and its result has
  -- every bitvector that one of the intervals stands for.
  pub signed_merge-Represents :
      (i j : Strided api a bounds g) (b : api.Bitvector)
      → SameSize api a value laws bounds limits g i j
      → Represents api value i b ⊎ Represents api value j b
      → (r : Strided api a bounds g) × ((signed_merge api a bounds g i j ≡ ok r)
          × Represents api value r b)
  signed_merge-Represents i j b same x =
      let (r, (run, covers)) = signed_merge-Covers i j same in (r, (run, covers.2 b x))
