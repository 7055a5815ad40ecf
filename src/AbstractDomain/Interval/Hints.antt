-- ===== src/AbstractDomain/Interval/Hints.antt =====
-- The widening hints of src/cwe_checker_lib/src/abstract_domain/interval.rs.
use Prim.Native.Nat.{max}
use fkie_cad_cwe_checker.AbstractDomain.Interval.Widening.{
  Widened, improves_lower, improves_upper, update_widening_lower_bound, update_widening_upper_bound,
  with_hints_of, residue, ignores_stride, round_up_to_stride_of, round_down_to_stride_of,
}
use fkie_cad_cwe_checker.AbstractDomain.Interval.MergedStrides.{greater-integer}
use fkie_cad_cwe_checker.Prelude.Outcome.{◌>>=◌, then_ok, Outcome, ok}
use fkie_cad_cwe_checker.Prelude.{
  ℕ, ◌%◌, ◌^◌, ◌<◌, ◌≤◌, ◌≡◌, sym, ◌∙◌, arith, some, none, inl, inr, Option, false, Bool-cases,
  true, Bool, ltb, refl, ap,
}
use mathlib.Core.Path.{subst}
use native.Mathlib.Nat.{mod-lt}
use fkie_cad_cwe_checker.Prelude.Powers.{pow_pos}
use fkie_cad_cwe_checker.Apint.{ApInt}
use fkie_cad_cwe_checker.Apint.Arithmetic.{Arithmetic, IsArithmetic}
use fkie_cad_cwe_checker.Apint.Signed.{Bounds, IsBounds, Gcd}
use fkie_cad_cwe_checker.IntermediateRepresentation.Bitvector.{
  signed_add_overflow_checked, signed_sub_overflow_checked,
}
use fkie_cad_cwe_checker.IntermediateRepresentation.Bitvector.Yields.{IsWhole}
use fkie_cad_cwe_checker.IntermediateRepresentation.Bitvector.Overflow.{
  signed_add_overflow_checked-SumChecked, signed_sub_overflow_checked-DifferenceChecked, integer,
}
use fkie_cad_cwe_checker.AbstractDomain.Interval.{Strided, bytesize}
use fkie_cad_cwe_checker.AbstractDomain.Interval.Adjusted.{width-resize_unsigned}

-- What is there has the property.
abbrev pub All : {V : Type 0} → (V → Type 0) → Option V → Type 0
All P none = Unit {0}
All P (some x) = P x

module _ (api : ApInt) (a : Arithmetic api) (value : api.Bitvector → ℕ)
    (laws : IsArithmetic api a value) (bounds : Bounds api) (limits : IsBounds api bounds value)
    (g : Gcd) where
  abbrev HasWidth : ℕ → api.Bitvector → Type 0
  HasWidth w b = api.width b ≡ w

  -- A run that returns at most one bitvector, of this width.
  abbrev pub Rounds : ℕ → Outcome (Option api.Bitvector) → Type 0
  Rounds w run = (o : Option api.Bitvector) × ((run ≡ ok o) × All (HasWidth w) o)

  sum-Rounds :
      (b d : api.Bitvector)
      → api.width b ≡ api.width d
      → 0 < api.width b
      → Rounds (api.width b) (signed_add_overflow_checked api a b d)
  sum-Rounds b d e p = elim (signed_add_overflow_checked-SumChecked api a value laws b d e p) [
    | inl (r, run, exact) ↦ (some r, (run, exact.0))
    | inr (run, outside) ↦ (none, (run, tt))
  ]

  difference-Rounds :
      (b d : api.Bitvector)
      → api.width b ≡ api.width d
      → 0 < api.width b
      → Rounds (api.width b) (signed_sub_overflow_checked api a b d)
  difference-Rounds b d e p =
      elim (signed_sub_overflow_checked-DifferenceChecked api a value laws b d e p) [
        | inl (r, run, exact) ↦ (some r, (run, exact.0))
        | inr (run, outside) ↦ (none, (run, tt))
      ]

  pub narrow :
      (i : Strided api a bounds g)
      → IsWhole api i.start
      → ignores_stride api a bounds g i ≡ false
      → api.width i.start ≤ 64
  narrow i whole h =
      let small : bytesize api a bounds g i ≤ 8 = ground arith in omega (arith, whole.0)

  round_up_to_stride_of-Rounds :
      (b : api.Bitvector) (i : Strided api a bounds g)
      → IsWhole api i.start
      → api.width b ≡ api.width i.start
      → Rounds (api.width i.start) (round_up_to_stride_of api a bounds g b i)
  unfolding round_up_to_stride_of
  round_up_to_stride_of-Rounds b i whole e = elim (Bool-cases (ignores_stride api a bounds g i)) [
    | inl ignores ↦ (some b, (ground arith, e))
    | inr rounds ↦
        let small = narrow i whole rounds in
        let (start, run_start, at) = limits.try_to_i128_total i.start small in
        let (this, run_this, at') = limits.try_to_i128_total b (omega (arith, e, small)) in
        let (d, (run_d, width)) =
          width-resize_unsigned api a value laws bounds limits g
            (residue start this i.stride % 2 ^ 64) (bytesize api a bounds g i)
            (mod-lt _ (pow_pos 64)) (omega (arith, whole.0, whole.1)) in
        let (o, (run, fits)) =
          sum-Rounds b d (e ∙ whole.0 ∙ sym width) (omega (arith, e, whole.1)) in
        (
          o,
          (ground (arith, run_start, run_this, run_d, run), subst (λ w. All (HasWidth w) o) e fits),
        )
  ]

  round_down_to_stride_of-Rounds :
      (b : api.Bitvector) (i : Strided api a bounds g)
      → IsWhole api i.start
      → api.width i.end ≡ api.width i.start
      → api.width b ≡ api.width i.start
      → Rounds (api.width i.start) (round_down_to_stride_of api a bounds g b i)
  unfolding round_down_to_stride_of
  round_down_to_stride_of-Rounds b i whole last e =
      elim (Bool-cases (ignores_stride api a bounds g i)) [
        | inl ignores ↦ (some b, (ground arith, e))
        | inr rounds ↦
            let small = narrow i whole rounds in
            let (end, run_end, at) = limits.try_to_i128_total i.end (omega (arith, last, small)) in
            let (this, run_this, at') = limits.try_to_i128_total b (omega (arith, e, small)) in
            let (d, (run_d, width)) =
              width-resize_unsigned api a value laws bounds limits g
                (residue this end i.stride % 2 ^ 64) (bytesize api a bounds g i)
                (mod-lt _ (pow_pos 64)) (omega (arith, whole.0, whole.1)) in
            let (o, (run, fits)) =
              difference-Rounds b d (e ∙ whole.0 ∙ sym width) (omega (arith, e, whole.1)) in
            (
              o,
              (
                ground (arith, run_end, run_this, run_d, run),
                subst (λ w. All (HasWidth w) o) e fits,
              ),
            )
      ]

  -- The hints lie outside of the interval, on their sides.
  abbrev pub IsHinted : Widened api a bounds g → Type 0
  IsHinted domain =
      All
        (λ bound.
          (api.width bound ≡ api.width domain.interval.start)
          × (integer api value bound < integer api value domain.interval.start))
        domain.widening_lower_bound
      × All
          (λ bound.
            (api.width bound ≡ api.width domain.interval.start)
            × (integer api value domain.interval.end < integer api value bound))
          domain.widening_upper_bound

  -- A domain of whole bytes, with hints outside of its interval.
  abbrev pub IsDomain : Widened api a bounds g → Type 0
  IsDomain domain =
      IsWhole api domain.interval.start
      × ((api.width domain.interval.end ≡ api.width domain.interval.start) × IsHinted domain)

  -- The run returns such a domain with the same interval.
  abbrev pub Updates : Widened api a bounds g → Outcome (Widened api a bounds g) → Type 0
  Updates domain run =
      (d : Widened api a bounds g) × ((run ≡ ok d) × ((d.interval ≡ domain.interval) × IsDomain d))

  improves_lower-ok :
      (bound : api.Bitvector) (previous : Option api.Bitvector)
      → All (HasWidth (api.width bound)) previous
      → (t : Bool) × (improves_lower api a bounds g bound previous ≡ ok t)
  improves_lower-ok bound none h = (true, refl)
  improves_lower-ok bound (some p) h =
      (_, greater-integer api a value laws bounds limits g bound p (sym h))

  improves_upper-ok :
      (bound : api.Bitvector) (previous : Option api.Bitvector)
      → All (HasWidth (api.width bound)) previous
      → (t : Bool) × (improves_upper api a bounds g bound previous ≡ ok t)
  improves_upper-ok bound none h = (true, refl)
  improves_upper-ok bound (some p) h =
      (_, greater-integer api a value laws bounds limits g p bound h)

  pub All-map :
      {P Q : api.Bitvector → Type 0} (o : Option api.Bitvector)
      → ((b : api.Bitvector) → P b → Q b)
      → All P o
      → All Q o
  All-map none f h = tt
  All-map (some b) f h = f b h

  take_lower :
      (bound : api.Bitvector) (domain : Widened api a bounds g) (o : Option api.Bitvector)
      → IsDomain domain
      → round_up_to_stride_of api a bounds g bound domain.interval ≡ ok o
      → All (HasWidth (api.width domain.interval.start)) o
      → Updates domain (update_widening_lower_bound api a bounds g (some bound) domain)
  unfolding update_widening_lower_bound
  take_lower bound domain none h run fits = (domain, (ground (arith, run), (refl, h)))
  take_lower bound domain (some v) h run fits =
      let outside =
        greater-integer api a value laws bounds limits g domain.interval.start v (sym fits) in
      let (t, better) =
        improves_lower-ok v domain.widening_lower_bound
          (All-map domain.widening_lower_bound (λ b x. x.0 ∙ sym fits) h.1.1.0) in
      elim (Bool-cases (ltb (integer api value v) (integer api value domain.interval.start))) [
        | inr inside ↦ (domain, (ground (arith, run, outside), (refl, h)))
        | inl below ↦ elim (Bool-cases t) [
          | inr worse ↦ (domain, (ground (arith, run, outside, better), (refl, h)))
          | inl best ↦ (
            record domain { widening_lower_bound = some v },
            (
              ground (arith, run, outside, better),
              (refl, (h.0, (h.1.0, ((fits, ground arith), h.1.1.1)))),
            ),
          )
        ]
      ]

  update_widening_lower_bound-Updates :
      (bound : Option api.Bitvector) (domain : Widened api a bounds g)
      → IsDomain domain
      → All (HasWidth (api.width domain.interval.start)) bound
      → Updates domain (update_widening_lower_bound api a bounds g bound domain)
  unfolding update_widening_lower_bound
  update_widening_lower_bound-Updates none domain h e = (domain, (refl, (refl, h)))
  update_widening_lower_bound-Updates (some bound) domain h e =
      let (o, (run, fits)) = round_up_to_stride_of-Rounds bound domain.interval h.0 e in
      take_lower bound domain o h run fits

  take_upper :
      (bound : api.Bitvector) (domain : Widened api a bounds g) (o : Option api.Bitvector)
      → IsDomain domain
      → round_down_to_stride_of api a bounds g bound domain.interval ≡ ok o
      → All (HasWidth (api.width domain.interval.start)) o
      → Updates domain (update_widening_upper_bound api a bounds g (some bound) domain)
  unfolding update_widening_upper_bound
  take_upper bound domain none h run fits = (domain, (ground (arith, run), (refl, h)))
  take_upper bound domain (some v) h run fits =
      let outside =
        greater-integer api a value laws bounds limits g v domain.interval.end (fits ∙ sym h.1.0) in
      let (t, better) =
        improves_upper-ok v domain.widening_upper_bound
          (All-map domain.widening_upper_bound (λ b x. x.0 ∙ sym fits) h.1.1.1) in
      elim (Bool-cases (ltb (integer api value domain.interval.end) (integer api value v))) [
        | inr inside ↦ (domain, (ground (arith, run, outside), (refl, h)))
        | inl above ↦ elim (Bool-cases t) [
          | inr worse ↦ (domain, (ground (arith, run, outside, better), (refl, h)))
          | inl best ↦ (
            record domain { widening_upper_bound = some v },
            (
              ground (arith, run, outside, better),
              (refl, (h.0, (h.1.0, (h.1.1.0, (fits, ground arith))))),
            ),
          )
        ]
      ]

  update_widening_upper_bound-Updates :
      (bound : Option api.Bitvector) (domain : Widened api a bounds g)
      → IsDomain domain
      → All (HasWidth (api.width domain.interval.start)) bound
      → Updates domain (update_widening_upper_bound api a bounds g bound domain)
  unfolding update_widening_upper_bound
  update_widening_upper_bound-Updates none domain h e = (domain, (refl, (refl, h)))
  update_widening_upper_bound-Updates (some bound) domain h e =
      let (o, (run, fits)) = round_down_to_stride_of-Rounds bound domain.interval h.0 h.1.0 e in
      take_upper bound domain o h run fits

  Updates-trans :
      (domain : Widened api a bounds g) (w : ℕ) (run : Outcome (Widened api a bounds g))
      (rest : Widened api a bounds g → Outcome (Widened api a bounds g))
      → api.width domain.interval.start ≡ w
      → Updates domain run
      → ((d : Widened api a bounds g)
          → IsDomain d
          → api.width d.interval.start ≡ w
          → Updates d (rest d))
      → Updates domain (run >>= rest)
  Updates-trans domain w run rest e (d, (h, (same, valid))) after =
      let (d', (h', (same', valid'))) = after d valid (ap (λ i. api.width i.start) same ∙ e) in
      (d', (then_ok run rest d d' h h', (same' ∙ same, valid')))

  pub with_hints_of-Updates :
      (domain this other : Widened api a bounds g)
      → IsDomain domain
      → All (HasWidth (api.width domain.interval.start)) this.widening_lower_bound
      → All (HasWidth (api.width domain.interval.start)) other.widening_lower_bound
      → All (HasWidth (api.width domain.interval.start)) this.widening_upper_bound
      → All (HasWidth (api.width domain.interval.start)) other.widening_upper_bound
      → Updates domain (with_hints_of api a bounds g domain this other)
  unfolding with_hints_of
  with_hints_of-Updates domain this other valid l l' u u' =
      let w : ℕ = api.width domain.interval.start in
      Updates-trans domain w _ _ refl
        (update_widening_lower_bound-Updates this.widening_lower_bound domain valid l)
        (λ d v e.
          Updates-trans d w _ _ e
            (update_widening_lower_bound-Updates other.widening_lower_bound d v
              (All-map other.widening_lower_bound (λ b x. x ∙ sym e) l'))
            (λ d v e.
              Updates-trans d w _ _ e
                (update_widening_upper_bound-Updates this.widening_upper_bound d v
                  (All-map this.widening_upper_bound (λ b x. x ∙ sym e) u))
                (λ d v e.
                  Updates-trans d w _ _ e
                    (update_widening_upper_bound-Updates other.widening_upper_bound d v
                      (All-map other.widening_upper_bound (λ b x. x ∙ sym e) u'))
                    (λ d v e. (
                      record d { widening_delay = max this.widening_delay other.widening_delay },
                      (refl, (refl, v)),
                    )))))
