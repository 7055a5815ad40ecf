-- ===== src/Prelude/Outcome.antt =====
-- What a run of the code ends in: a value, a panic, or a loop of the model that ran out of fuel.
use Prim.Native.Nat.{ℕ}
use mathlib.Core.Path.{◌≡◌, refl, ap, ◌∙◌}
use mathlib.Core.Bool.{Bool, true, false}
use mathlib.Core.Option.{Option, none, some}
use mathlib.Core.List.{List}
use fkie_cad_cwe_checker.Prelude.Lists.{get_elem?}

pub data Outcome {ℓ} (A : Type ℓ) : Type ℓ where
  ok : A → Outcome A
  panic : Outcome A
  out_of_fuel : Outcome A

-- What follows a call runs only if the call has returned a value.
module _ {ℓ κ} {A : Type ℓ} {B : Type κ} where
  infixl 5 ◌>>=◌
  abbrev pub ◌>>=◌ : Outcome A → (A → Outcome B) → Outcome B
  out_of_fuel >>= _ = out_of_fuel
  panic >>= _ = panic
  ok returned >>= rest = rest returned

  -- The call has returned a value, with which the rest of the run ends in `b`.
  abbrev pub Passes : Outcome A → (A → Outcome B) → B → Type (ℓ ⊔ κ)
  Passes call rest b = (returned : A) × (call ≡ ok returned) × (rest returned ≡ ok b)

  -- A run that has returned has passed the call it begins with.
  pub >>=-eq-ok :
      (call : Outcome A) (rest : A → Outcome B) {b : B} → call >>= rest ≡ ok b → Passes call rest b
  >>=-eq-ok out_of_fuel rest h = cc
  >>=-eq-ok panic rest h = cc
  >>=-eq-ok (ok returned) rest h = (returned, refl, h)

infixl 5 ◌>>◌
abbrev pub ◌>>◌ {ℓ} : {B : Type ℓ} → Outcome (Unit {0}) → Outcome B → Outcome B
check >> rest = check >>= (λ _. rest)

-- `assert!`
abbrev pub assert : Bool → Outcome (Unit {0})
assert true = ok tt
assert false = panic

-- `unwrap` and `expect`
abbrev pub unwrap {ℓ} : {A : Type ℓ} → Option A → Outcome A
unwrap (some a) = ok a
unwrap none = panic

-- `xs[i]`
abbrev pub index {ℓ} : {A : Type ℓ} → List A → ℕ → Outcome A
index xs i = unwrap (get_elem? xs i)

-- A run whose first call returns is the rest of the run.
pub then_ok :
    {A B : Type 0} (call : Outcome A) (rest : A → Outcome B) (returned : A) (r : B)
    → call ≡ ok returned
    → rest returned ≡ ok r
    → call >>= rest ≡ ok r
then_ok call rest returned r h k = ap (λ o. o >>= rest) h ∙ k
