-- ===== src/AbstractDomain/Interval/Keeping.antt =====
-- The signed restrictions of src/cwe_checker_lib/src/abstract_domain/interval.rs, with conditions other
-- than their bounds.
use fkie_cad_cwe_checker.Prelude.{ℕ, ◌^◌, ◌/◌, ◌≤◌, ◌≡◌, sym, ◌∙◌, arith}
use mathlib.Core.Path.{subst}
use fkie_cad_cwe_checker.Apint.{ApInt}
use fkie_cad_cwe_checker.Apint.Arithmetic.{Arithmetic, IsArithmetic}
use fkie_cad_cwe_checker.Apint.Signed.{Bounds, IsBounds, Gcd}
use fkie_cad_cwe_checker.AbstractDomain.Interval.Represented.{Represents}
use fkie_cad_cwe_checker.AbstractDomain.Interval.Closed.{Domain, IsClosed}
use fkie_cad_cwe_checker.AbstractDomain.Interval.Conditional.{
  add_signed_less_equal_bound, add_signed_greater_equal_bound,
}
use fkie_cad_cwe_checker.AbstractDomain.Interval.RestrictedEnd.{add_signed_less_equal_bound-Selects}
use fkie_cad_cwe_checker.AbstractDomain.Interval.RestrictedStart.{
  add_signed_greater_equal_bound-Selects,
}
use fkie_cad_cwe_checker.AbstractDomain.Interval.Restricted.{
  Keeps-weaken, AtMost, AtLeast, Keeps, Returns,
}

module _ (api : ApInt) (a : Arithmetic api) (value : api.Bitvector → ℕ)
    (laws : IsArithmetic api a value) (bounds : Bounds api) (limits : IsBounds api bounds value)
    (g : Gcd) where
  -- What the signed restrictions need.
  abbrev pub Fits : api.Bitvector → Domain api a value laws bounds limits g → Type 0
  Fits bound domain =
      (api.width bound ≡ api.width domain.interval.start)
      × (domain.interval.stride ≤ 2 ^ api.width bound / 2)

  pub at_most :
      (Q : api.Bitvector → Type 0) (bound : api.Bitvector)
      (domain : Domain api a value laws bounds limits g)
      → IsClosed api a value laws bounds limits g domain
      → Fits bound domain
      → ((b : api.Bitvector)
          → Represents api value domain.interval b
          → Q b
          → AtMost api value bound b)
      → Returns api a value laws bounds limits g
          (Keeps api a value laws bounds limits g Q domain)
          (add_signed_less_equal_bound api a bounds g bound domain)
  at_most Q bound domain closed (e, small) f =
      let (o, (run, (kept, only))) =
        add_signed_less_equal_bound-Selects api a value laws bounds limits g bound domain closed e
          small in
      (
        o,
        (
          run,
          Keeps-weaken api a value laws bounds limits g (AtMost api value bound) Q domain o f kept,
        ),
      )

  pub at_least :
      (Q : api.Bitvector → Type 0) (bound : api.Bitvector)
      (domain : Domain api a value laws bounds limits g)
      → IsClosed api a value laws bounds limits g domain
      → Fits bound domain
      → ((b : api.Bitvector)
          → Represents api value domain.interval b
          → Q b
          → AtLeast api value bound b)
      → Returns api a value laws bounds limits g
          (Keeps api a value laws bounds limits g Q domain)
          (add_signed_greater_equal_bound api a bounds g bound domain)
  at_least Q bound domain closed (e, small) f =
      let (o, (run, (kept, only))) =
        add_signed_greater_equal_bound-Selects api a value laws bounds limits g bound domain closed
          e small in
      (
        o,
        (
          run,
          Keeps-weaken api a value laws bounds limits g (AtLeast api value bound) Q domain o f kept,
        ),
      )

  pub Fits-width :
      (bound c : api.Bitvector) (domain : Domain api a value laws bounds limits g)
      → api.width c ≡ api.width bound
      → Fits bound domain
      → Fits c domain
  Fits-width bound c domain w (e, small) =
      (w ∙ e, subst (λ v. domain.interval.stride ≤ 2 ^ v / 2) (sym w) small)

  pub Fits-finer :
      (bound : api.Bitvector) (domain d : Domain api a value laws bounds limits g)
      → Fits bound domain
      → api.width d.interval.start ≡ api.width domain.interval.start
      → d.interval.stride ≤ domain.interval.stride
      → Fits bound d
  Fits-finer bound domain d (e, small) w finer = (e ∙ sym w, omega (arith, small, finer))
