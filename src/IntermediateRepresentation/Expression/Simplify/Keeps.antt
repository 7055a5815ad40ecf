-- ===== src/IntermediateRepresentation/Expression/Simplify/Keeps.antt =====
-- Each rewriting keeps the value of an expression that is typed in the state, and keeps it typed.
use fkie_cad_cwe_checker.Prelude.{
  ◌⊎◌, inl, inr, ℕ, ◌≡◌, refl, ◌∙◌, Bool, true, false, Option, some, none, if◌then◌else◌,
}
use mathlib.Core.Path.{subst}
use fkie_cad_cwe_checker.Apint.{ApInt}
use fkie_cad_cwe_checker.IntermediateRepresentation.Variable.{Variable}
use fkie_cad_cwe_checker.IntermediateRepresentation.Expression.{BinOpType, Expression}
use fkie_cad_cwe_checker.IntermediateRepresentation.Expression.Expression.{bin_op}
use fkie_cad_cwe_checker.IntermediateRepresentation.Expression.Semantics.{evaluate}
use fkie_cad_cwe_checker.IntermediateRepresentation.Expression.Pcode.{Word, Others}
use fkie_cad_cwe_checker.IntermediateRepresentation.Expression.Simplify.{
  or_else, either_order, unwrap_or,
}
use fkie_cad_cwe_checker.IntermediateRepresentation.Expression.Simplify.Typed.{IsTyped, value_of}
use fkie_cad_cwe_checker.IntermediateRepresentation.Expression.Simplify.WordLaws.{
  commutes, commutes-Operands, commutes-swap,
}

-- A guarded arm has matched only if its guard holds.
pub on_some {ℓ} :
    {A : Type ℓ} (guard : Bool) (e e' : A)
    → (if guard then some e else none) ≡ some e'
    → (guard ≡ true) × (e ≡ e')
on_some true e e' h = (refl, cc)
on_some false e e' h = cc

pub or_else-some :
    {A : Type 0} (o p : Option A) (e : A) → or_else o p ≡ some e → (o ≡ some e) ⊎ (p ≡ some e)
or_else-some none p e h = inr h
or_else-some (some x) p e h = inl h

pub some-path {ℓ} : {A : Type ℓ} (P : A → Type 0) (x y : A) → some x ≡ some y → P x → P y
some-path P x y h p = let e : x ≡ y = cc in subst P e p

module _ (api : ApInt) (value : api.Bitvector → ℕ) (others : Others) (s : Variable → Word) where
  abbrev Expr : Type 0
  Expr = Expression api.Bitvector

  -- The replacement is typed, and has the value of the original.
  abbrev pub Replaces : Expr → Expr → Type 0
  Replaces e e' =
      IsTyped api value others s e'
      × (value_of api value others s e' ≡ value_of api value others s e)

  abbrev pub Keeps : Expr → Expr → Type 0
  Keeps e e' = IsTyped api value others s e → Replaces e e'

  pub Keeps-refl : (e : Expr) → Keeps e e
  Keeps-refl e t = (t, refl)

  pub Keeps-trans : (e f g : Expr) → Keeps e f → Keeps f g → Keeps e g
  Keeps-trans e f g h k t = let (u, p) = h t in let (v, q) = k u in (v, q ∙ p)

  -- A step that may not match.
  pub unwrap_or-Keeps :
      (o : Option Expr) (e : Expr)
      → ((e' : Expr) → o ≡ some e' → Keeps e e')
      → Keeps e (unwrap_or o e)
  unwrap_or-Keeps none e h = Keeps-refl e
  unwrap_or-Keeps (some x) e h = h x refl

  pub if-Keeps :
      (guard : Bool) (e f g : Expr)
      → (guard ≡ true → Keeps e f)
      → (guard ≡ false → Keeps e g)
      → Keeps e (if guard then f else g)
  if-Keeps true e f g h k = h refl
  if-Keeps false e f g h k = k refl

  pub bin_op-swap :
      (op : BinOpType) (lhs rhs : Expr)
      → commutes op ≡ true
      → Keeps (bin_op op lhs rhs) (bin_op op rhs lhs)
  unfolding IsTyped evaluate
  bin_op-swap op lhs rhs h t =
      ((t.1, t.0, commutes-Operands op _ _ h t.2), commutes-swap others op _ _ h t.2)

  -- An arm of an operation whose operands can be swapped is tried in both orders.
  pub either_order-Keeps :
      (op : BinOpType) (arm : Expr → Expr → Option Expr)
      → ((lhs rhs e' : Expr) → arm lhs rhs ≡ some e' → commutes op ≡ true)
      → ((lhs rhs e' : Expr) → arm lhs rhs ≡ some e' → Keeps (bin_op op lhs rhs) e')
      → (lhs rhs e' : Expr) → either_order arm lhs rhs ≡ some e'
      → Keeps (bin_op op lhs rhs) e'
  either_order-Keeps op arm c h lhs rhs e' k =
      elim (or_else-some (arm lhs rhs) (arm rhs lhs) e' k) [
        | inl l ↦ h lhs rhs e' l
        | inr r ↦
            Keeps-trans (bin_op op lhs rhs) (bin_op op rhs lhs) e'
              (bin_op-swap op lhs rhs (c rhs lhs e' r)) (h rhs lhs e' r)
      ]
