-- ===== src/AbstractDomain/Interval/Restricted.antt =====
-- What restricting a domain by a condition is to give, for the restrictions of
-- src/cwe_checker_lib/src/abstract_domain/interval.rs.
use fkie_cad_cwe_checker.Prelude.Outcome.{then_ok, ok}
use fkie_cad_cwe_checker.AbstractDomain.Interval.Conditional.{and_then_domain, Restricted}
use fkie_cad_cwe_checker.AbstractDomain.Interval.Closed.{Domain, IsClosed}
use fkie_cad_cwe_checker.Prelude.{ℕ, ◌≤◌, ◌≡◌, some, none, Option, refl, ◌∙◌, arith}
use fkie_cad_cwe_checker.Apint.{ApInt}
use fkie_cad_cwe_checker.Apint.Arithmetic.{Arithmetic, IsArithmetic}
use fkie_cad_cwe_checker.Apint.Signed.{Bounds, IsBounds, Gcd}
use fkie_cad_cwe_checker.IntermediateRepresentation.Bitvector.Overflow.{integer}
use fkie_cad_cwe_checker.AbstractDomain.Interval.Represented.{Represents}
use fkie_cad_cwe_checker.AbstractDomain.Interval.Hints.{All}

module _ (api : ApInt) (value : api.Bitvector → ℕ) where
  abbrev pub AtMost : api.Bitvector → api.Bitvector → Type 0
  AtMost bound b = integer api value b ≤ integer api value bound

  abbrev pub AtLeast : api.Bitvector → api.Bitvector → Type 0
  AtLeast bound b = integer api value bound ≤ integer api value b

module _ (api : ApInt) (a : Arithmetic api) (value : api.Bitvector → ℕ)
    (laws : IsArithmetic api a value) (bounds : Bounds api) (limits : IsBounds api bounds value)
    (g : Gcd) where
  -- A restriction keeps the values of the domain that fulfil the condition, and is the error of an empty
  -- interval only if there are none. What it returns is closed, of the same width, and its stride does
  -- not grow.
  abbrev pub Keeps :
      (api.Bitvector → Type 0)
      → Domain api a value laws bounds limits g
      → Option (Domain api a value laws bounds limits g)
      → Type 0
  Keeps P domain none = (b : api.Bitvector) → Represents api value domain.interval b → ¬ (P b)
  Keeps P domain (some d) =
      (api.width d.interval.start ≡ api.width domain.interval.start)
      × IsClosed api a value laws bounds limits g d
      × (d.interval.stride ≤ domain.interval.stride)
      × ((b : api.Bitvector)
          → Represents api value domain.interval b
          → P b
          → Represents api value d.interval b)

  abbrev pub Returns :
      (Option (Domain api a value laws bounds limits g) → Type 0)
      → Restricted api a bounds g
      → Type 0
  Returns P run = (o : Option (Domain api a value laws bounds limits g)) × ((run ≡ ok o) × P o)

  -- All values fulfil the condition.
  abbrev pub Only : (api.Bitvector → Type 0) → Domain api a value laws bounds limits g → Type 0
  Only P d = (b : api.Bitvector) → Represents api value d.interval b → P b

  -- The values of the domain that fulfil the condition are kept, and there are no others.
  abbrev pub Selects :
      (api.Bitvector → Type 0)
      → Domain api a value laws bounds limits g
      → Restricted api a bounds g
      → Type 0
  Selects P domain run = Returns (λ o. Keeps P domain o × All (Only P) o) run

  -- A weaker condition, on the values of the domain, is kept too.
  pub Keeps-weaken :
      (P Q : api.Bitvector → Type 0) (domain : Domain api a value laws bounds limits g)
      (o : Option (Domain api a value laws bounds limits g))
      → ((b : api.Bitvector) → Represents api value domain.interval b → Q b → P b)
      → Keeps P domain o
      → Keeps Q domain o
  Keeps-weaken P Q domain none f h = λ b x q. h b x (f b x q)
  Keeps-weaken P Q domain (some d) f (w, closed, finer, h) =
      (w, closed, finer, (λ b x q. h b x (f b x q)))

  pub Keeps-refl :
      (P : api.Bitvector → Type 0) (domain : Domain api a value laws bounds limits g)
      → IsClosed api a value laws bounds limits g domain
      → Keeps P domain (some domain)
  Keeps-refl P domain closed = (refl, closed, omega arith, (λ b x q. x))

  Keeps-compose :
      (P : api.Bitvector → Type 0) (domain d : Domain api a value laws bounds limits g)
      (o : Option (Domain api a value laws bounds limits g))
      → Keeps P domain (some d)
      → Keeps P d o
      → Keeps P domain o
  Keeps-compose P domain d none (w, closed, finer, kept) h = λ b x p. h b (kept b x p) p
  Keeps-compose P domain d (some d') (w, closed, finer, kept) (w', closed', finer', kept') =
      (w' ∙ w, closed', omega (arith, finer, finer'), (λ b x p. kept' b (kept b x p) p))

  pub Keeps-trans :
      (P : api.Bitvector → Type 0) (domain : Domain api a value laws bounds limits g)
      (run : Restricted api a bounds g)
      (rest : Domain api a value laws bounds limits g → Restricted api a bounds g)
      → Returns (Keeps P domain) run
      → ((d : Domain api a value laws bounds limits g)
          → IsClosed api a value laws bounds limits g d
          → api.width d.interval.start ≡ api.width domain.interval.start
          → d.interval.stride ≤ domain.interval.stride
          → Returns (Keeps P d) (rest d))
      → Returns (Keeps P domain) (and_then_domain api a bounds g run rest)
  Keeps-trans P domain run rest (none, (h, kept)) after =
      (none, (then_ok run _ none none h refl, kept))
  Keeps-trans P domain run rest (some d, (h, kept)) after =
      let (w, closed, finer, k) = kept in
      let (o, (h', kept')) = after d closed w finer in
      (o, (then_ok run _ (some d) o h h', Keeps-compose P domain d o kept kept'))
