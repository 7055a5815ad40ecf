-- ===== src/AbstractDomain/Interval/Closed.antt =====
-- Domains whose end is one of their values, for src/cwe_checker_lib/src/abstract_domain/interval.rs.
use fkie_cad_cwe_checker.Prelude.{ℕ, ◌+◌, ◌-◌, ◌*◌, ◌<◌, ◌≡◌, ap, sym, ◌∙◌, arith, none, ◌≤◌}
use mathlib.Core.Path.{subst}
use fkie_cad_cwe_checker.Apint.{ApInt, byte_size_from}
use fkie_cad_cwe_checker.Apint.Arithmetic.{Arithmetic, IsArithmetic}
use fkie_cad_cwe_checker.Apint.Signed.{Bounds, IsBounds, Gcd}
use fkie_cad_cwe_checker.IntermediateRepresentation.Bitvector.{as_bit_length}
use fkie_cad_cwe_checker.IntermediateRepresentation.Bitvector.Yields.{IsWhole}
use fkie_cad_cwe_checker.IntermediateRepresentation.Bitvector.Overflow.{integer}
use fkie_cad_cwe_checker.AbstractDomain.Interval.{Strided, strided}
use fkie_cad_cwe_checker.AbstractDomain.Interval.Represented.{Strides, Represents}
use fkie_cad_cwe_checker.AbstractDomain.Interval.Sound.{difference_of_multiples}
use fkie_cad_cwe_checker.AbstractDomain.Interval.Adjusted.{StartsWithin}
use fkie_cad_cwe_checker.AbstractDomain.Interval.Lowered.{EndsWithin}
use fkie_cad_cwe_checker.AbstractDomain.Interval.Hints.{IsDomain, All-map}
use fkie_cad_cwe_checker.AbstractDomain.Interval.Widening.{Widened}

module _ (api : ApInt) (a : Arithmetic api) (value : api.Bitvector → ℕ)
    (laws : IsArithmetic api a value) (bounds : Bounds api) (limits : IsBounds api bounds value)
    (g : Gcd) where
  abbrev pub Domain : Type 0
  Domain = Widened api a bounds g

  -- A domain of whole bytes, with hints outside of its interval, whose end is one of its values.
  abbrev pub IsClosed : Domain → Type 0
  IsClosed domain =
      IsDomain api a value laws bounds limits g domain
      × Represents api value domain.interval domain.interval.end

  pub same_width-IsWhole :
      (b c : api.Bitvector) → api.width c ≡ api.width b → IsWhole api b → IsWhole api c
  same_width-IsWhole b c e h =
      (e ∙ h.0 ∙ ap (λ w. as_bit_length (byte_size_from w)) (sym e), omega (arith, e, h.1))

  -- Between the first and the last value of an interval, each is a multiple of the stride below the last.
  pub below_end :
      (is ie s ib : ℕ) → Strides is ie s ie → Strides is ie s ib → (k : ℕ) × (ib + k * s ≡ ie)
  below_end is ie s ib (l, (n, e)) (l', (k, e')) =
      let apart = difference_of_multiples k n s (omega (arith, e, e', l')) in
      (n - k, omega (arith, e, e', apart))

  pub start-IsClosed :
      (domain : Domain) (c : api.Bitvector) (r : Strided api a bounds g)
      → IsClosed domain
      → api.width c ≡ api.width domain.interval.start
      → integer api value c ≤ integer api value domain.interval.end
      → StartsWithin api a value laws bounds limits g
          (strided api a bounds g c domain.interval.end domain.interval.stride)
          r
      → IsClosed (record domain { interval = r; widening_lower_bound = none })
  start-IsClosed domain c r (v, last) e h (we, (ends, up, finer, within)) = (
    (
      same_width-IsWhole domain.interval.start r.start (we ∙ e) v.0,
      (
        ap api.width ends ∙ v.1.0 ∙ sym (we ∙ e),
        (
          tt,
          All-map api a value laws bounds limits g domain.widening_upper_bound
              (λ b x. (
                x.0 ∙ sym (we ∙ e),
                subst (λ d. integer api value d < integer api value b) (sym ends) x.1,
              ))
              v.1.1.1,
        ),
      ),
    ),
    subst (Represents api value r) (sym ends)
        (within domain.interval.end 0 (v.1.0 ∙ sym e) (omega arith) h),
  )

  pub end-IsClosed :
      (domain : Domain) (c : api.Bitvector) (r : Strided api a bounds g)
      → IsClosed domain
      → EndsWithin api a value laws bounds limits g
          (strided api a bounds g domain.interval.start c domain.interval.stride)
          r
      → IsClosed (record domain { interval = r; widening_upper_bound = none })
  end-IsClosed domain c r (v, last) (starts, we, down, finer, last', within) = (
    (
      same_width-IsWhole domain.interval.start r.start (ap api.width starts) v.0,
      (
        we ∙ sym (ap api.width starts),
        (
          All-map api a value laws bounds limits g domain.widening_lower_bound
              (λ b x. (
                x.0 ∙ sym (ap api.width starts),
                subst (λ d. integer api value b < integer api value d) (sym starts) x.1,
              ))
              v.1.1.0,
          tt,
        ),
      ),
    ),
    last',
  )
