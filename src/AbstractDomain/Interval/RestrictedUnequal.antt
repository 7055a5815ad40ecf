-- ===== src/AbstractDomain/Interval/RestrictedUnequal.antt =====
-- `add_not_equal_bound` of src/cwe_checker_lib/src/abstract_domain/interval.rs.
use fkie_cad_cwe_checker.Prelude.Outcome.{then_ok}
use fkie_cad_cwe_checker.IntermediateRepresentation.Bitvector.Overflow.{integer}
use fkie_cad_cwe_checker.AbstractDomain.Interval.Signs.{
  same_integer, next_integer, previous_integer,
}
use fkie_cad_cwe_checker.AbstractDomain.Interval.Conditional.{
  adjusted_start, adjusted_end, with_start, with_end, add_not_equal_bound,
}
use fkie_cad_cwe_checker.AbstractDomain.Interval.MergedStrides.{greater-integer}
use fkie_cad_cwe_checker.Prelude.{
  ℕ, ◌^◌, ◌/◌, ◌<◌, ◌≤◌, ◌≡◌, refl, sym, ◌∙◌, arith, some, inl, inr, below_or_not, ap, false, none,
  Bool-cases,
}
use fkie_cad_cwe_checker.Apint.{ApInt}
use fkie_cad_cwe_checker.Apint.Arithmetic.{Arithmetic, IsArithmetic}
use fkie_cad_cwe_checker.Apint.Signed.{Bounds, IsBounds, Gcd}
use fkie_cad_cwe_checker.AbstractDomain.Interval.Represented.{Represents}
use fkie_cad_cwe_checker.AbstractDomain.Interval.Restricted.{Keeps-refl, Keeps, Returns}
use fkie_cad_cwe_checker.AbstractDomain.Interval.Keeping.{at_most, at_least, Fits-width}
use fkie_cad_cwe_checker.AbstractDomain.Interval.{strided}
use fkie_cad_cwe_checker.AbstractDomain.Interval.Adjusted.{adjust_start_to_value_in_stride-Starts}
use fkie_cad_cwe_checker.AbstractDomain.Interval.Lowered.{adjust_end_to_value_in_stride-Ends}
use fkie_cad_cwe_checker.AbstractDomain.Interval.Closed.{
  start-IsClosed, end-IsClosed, same_width-IsWhole, below_end, Domain, IsClosed,
}
use fkie_cad_cwe_checker.AbstractDomain.Interval.Hints.{All-map}

module _ (api : ApInt) (a : Arithmetic api) (value : api.Bitvector → ℕ)
    (laws : IsArithmetic api a value) (bounds : Bounds api) (limits : IsBounds api bounds value)
    (g : Gcd) where
  -- The interval starts at a bitvector between its ends, above which lie all that are to be kept.
  moved_start :
      (Q : api.Bitvector → Type 0) (c : api.Bitvector)
      (domain : Domain api a value laws bounds limits g)
      → IsClosed api a value laws bounds limits g domain
      → api.width c ≡ api.width domain.interval.start
      → integer api value domain.interval.start ≤ integer api value c
      → integer api value c ≤ integer api value domain.interval.end
      → ((b : api.Bitvector)
          → Represents api value domain.interval b
          → Q b
          → integer api value c ≤ integer api value b)
      → Returns api a value laws bounds limits g
          (Keeps api a value laws bounds limits g Q domain)
          (adjusted_start api a bounds g (with_start api a bounds g c domain))
  unfolding adjusted_start
  moved_start Q c domain closed e above below f =
      let (r, (run, starts)) =
        adjust_start_to_value_in_stride-Starts api a value laws bounds limits g
          (strided api a bounds g c domain.interval.end domain.interval.stride)
          (
            same_width-IsWhole api a value laws bounds limits g domain.interval.start c e
                closed.0.0,
            (closed.0.1.0 ∙ sym e, below),
          ) in
      let (we, (ends, up, finer, within)) = starts in
      let (v, last) =
        start-IsClosed api a value laws bounds limits g domain c r closed e below starts in
      (
        some (record domain { interval = r }),
        (
          then_ok _ _ r (some (record domain { interval = r })) run refl,
          (
            we ∙ e,
            (
              (
                v.0,
                (
                  v.1.0,
                  (
                    All-map api a value laws bounds limits g domain.widening_lower_bound
                        (λ b x. (x.0 ∙ sym (we ∙ e), omega (arith, x.1, above, up))) closed.0.1.1.0,
                    v.1.1.1,
                  ),
                ),
              ),
              last,
            ),
            finer,
            (λ b x q.
                let (k, h) =
                  below_end api a value laws bounds limits g _ _ domain.interval.stride _ closed.1.1
                    x.1 in
                within b k (x.0 ∙ sym e) h (f b x q)),
          ),
        ),
      )

  moved_end :
      (Q : api.Bitvector → Type 0) (c : api.Bitvector)
      (domain : Domain api a value laws bounds limits g)
      → IsClosed api a value laws bounds limits g domain
      → api.width c ≡ api.width domain.interval.start
      → integer api value domain.interval.start ≤ integer api value c
      → integer api value c ≤ integer api value domain.interval.end
      → ((b : api.Bitvector)
          → Represents api value domain.interval b
          → Q b
          → integer api value b ≤ integer api value c)
      → Returns api a value laws bounds limits g
          (Keeps api a value laws bounds limits g Q domain)
          (adjusted_end api a bounds g (with_end api a bounds g c domain))
  unfolding adjusted_end
  moved_end Q c domain closed e above below f =
      let (r, (run, ends)) =
        adjust_end_to_value_in_stride-Ends api a value laws bounds limits g
          (strided api a bounds g domain.interval.start c domain.interval.stride)
          (closed.0.0, (e, above)) in
      let (starts, we, down, finer, last', within) = ends in
      let (v, last) = end-IsClosed api a value laws bounds limits g domain c r closed ends in
      (
        some (record domain { interval = r }),
        (
          then_ok _ _ r (some (record domain { interval = r })) run refl,
          (
            ap api.width starts,
            (
              (
                v.0,
                (
                  v.1.0,
                  (
                    v.1.1.0,
                    All-map api a value laws bounds limits g domain.widening_upper_bound
                        (λ b x. (x.0 ∙ ap api.width (sym starts), omega (arith, x.1, below, down)))
                        closed.0.1.1.1,
                  ),
                ),
              ),
              last,
            ),
            finer,
            (λ b x q. within b x.1.1.0 x.0 x.1.1.1 (f b x q)),
          ),
        ),
      )

  unequal :
      (b c : api.Bitvector) → ¬ (integer api value b ≡ integer api value c) → a.equal b c ≡ false
  unequal b c h = elim (Bool-cases (a.equal b c)) [
    | inl same ↦ absurd (h (ap (integer api value) (laws.equal_sound b c same)))
    | inr differs ↦ differs
  ]

  -- Bitvectors of one width that are not equal have different integers.
  different :
      (b c : api.Bitvector)
      → api.width b ≡ api.width c
      → 0 < api.width c
      → a.equal b c ≡ false
      → ¬ (integer api value b ≡ integer api value c)
  different b c e p h same =
      let number = same_integer api a value laws b c (api.width c) e refl p same in
      ground (arith, laws.equal_value b c e, h, number)

  -- For a closed domain of the size of the bound, whose stride is at most half of the values of the width:
  -- `add_not_equal_bound` does not panic, its result is closed, of this size and has all values of the domain
  -- whose numbers differ from that of the bound, and it is the error of an empty interval only if there are
  -- none.
  pub add_not_equal_bound-Keeps :
      (bound : api.Bitvector) (domain : Domain api a value laws bounds limits g)
      → IsClosed api a value laws bounds limits g domain
      → api.width bound ≡ api.width domain.interval.start
      → domain.interval.stride ≤ 2 ^ api.width bound / 2
      → Returns api a value laws bounds limits g
          (Keeps api a value laws bounds limits g (λ b. ¬ (value b ≡ value bound)) domain)
          (add_not_equal_bound api a bounds g bound domain)
  unfolding add_not_equal_bound
  add_not_equal_bound-Keeps bound domain closed e small =
      let w : ℕ = api.width bound in
      let large : 2 ≤ w = omega (arith, e, closed.0.0.0, closed.0.0.1) in
      let Q : api.Bitvector → Type 0 = λ b. ¬ (value b ≡ value bound) in
      let start : api.Bitvector = domain.interval.start in
      let end : api.Bitvector = domain.interval.end in
      let we : api.width end ≡ w = closed.0.1.0 ∙ sym e in
      let apart : (b : api.Bitvector)
          → Represents api value domain.interval b
          → Q b
          → ¬ (integer api value b ≡ integer api value bound) =
        λ b x q same. q (
          same_integer api a value laws b bound w (x.0 ∙ sym e) refl (omega (arith, large)) same) in
      let start_above = greater-integer api a value laws bounds limits g start bound (sym e) in
      let end_below = greater-integer api a value laws bounds limits g bound end (sym we) in
      elim (below_or_not (integer api value bound) (integer api value start)) [
        | inl below ↦
            let differs = unequal start bound (λ same. omega (arith, below, same)) in
            let (d, (next, (wd, at))) =
              next_integer api a value laws bound start w refl (sym e) large below in
            let (o, (run, kept)) =
              at_least api a value laws bounds limits g Q d domain closed
                (Fits-width api a value laws bounds limits g bound d domain wd (e, small))
                (λ b x q. omega (arith, at, below, x.1.1.1)) in
            (o, (ground (arith, differs, start_above, below, next, run), kept))
        | inr not_below ↦ elim (Bool-cases (a.equal start bound)) [
          | inl same ↦
              let is : integer api value start ≡ integer api value bound =
                ap (integer api value) (laws.equal_sound start bound same) in
              elim (Bool-cases (a.equal end bound)) [
                | inl same' ↦
                    let ie : integer api value end ≡ integer api value bound =
                      ap (integer api value) (laws.equal_sound end bound same') in
                    (
                      none,
                      (
                        ground (arith, same, same'),
                        (λ b x q. apart b x q (omega (arith, x.1.0, x.1.1.1, is, ie))),
                      ),
                    )
                | inr differs' ↦
                    let ie = different end bound we (omega (arith, large)) differs' in
                    let (d, (next, (wd, at))) =
                      next_integer api a value laws start end w (sym e) we large
                        (omega (arith, is, ie, closed.1.1)) in
                    let (o, (run, kept)) =
                      moved_start Q d domain closed (wd ∙ e) (omega (arith, at))
                        (omega (arith, at, is, ie, closed.1.1))
                        (λ b x q. omega (arith, at, is, x.1.1.1, apart b x q)) in
                    (o, (ground (arith, same, differs', start_above, is, next, run), kept))
              ]
          | inr differs ↦
              let is = different start bound (sym e) (omega (arith, large)) differs in
              elim (below_or_not (integer api value end) (integer api value bound)) [
                | inl above ↦
                    let (d, (previous, (wd, at))) =
                      previous_integer api a value laws bound end w refl we large above in
                    let (o, (run, kept)) =
                      at_most api a value laws bounds limits g Q d domain closed
                        (Fits-width api a value laws bounds limits g bound d domain wd (e, small))
                        (λ b x q. omega (arith, at, above, x.1.0)) in
                    (
                      o,
                      (
                        ground (
                          arith, differs, start_above, not_below, end_below, above, previous, run,
                        ),
                        kept,
                      ),
                    )
                | inr not_above ↦ elim (Bool-cases (a.equal end bound)) [
                  | inl same' ↦
                      let ie : integer api value end ≡ integer api value bound =
                        ap (integer api value) (laws.equal_sound end bound same') in
                      let (d, (previous, (wd, at))) =
                        previous_integer api a value laws end start w we (sym e) large
                          (omega (arith, is, ie, closed.1.1)) in
                      let (o, (run, kept)) =
                        moved_end Q d domain closed (wd ∙ e) (omega (arith, at, is, ie, closed.1.1))
                          (omega (arith, at))
                          (λ b x q. omega (arith, at, ie, x.1.0, apart b x q)) in
                      (
                        o,
                        (
                          ground (
                            arith, differs, start_above, not_below, end_below, not_above, same',
                            previous, run,
                          ),
                          kept,
                        ),
                      )
                  | inr differs' ↦ (
                    some domain,
                    (
                      ground
                          (arith, differs, start_above, not_below, end_below, not_above, differs'),
                      Keeps-refl api a value laws bounds limits g Q domain closed,
                    ),
                  )
                ]
              ]
        ]
      ]
