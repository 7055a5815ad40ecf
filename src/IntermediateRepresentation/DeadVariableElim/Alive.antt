-- ===== src/IntermediateRepresentation/DeadVariableElim/Alive.antt =====
-- The sets of alive variables: what each operation does to membership.
use fkie_cad_cwe_checker.Prelude.{
  ◌≡◌, refl, ◌∙◌, Bool, true, false, not, ◌&&◌, ◌||◌, List, [], ◌∷◌, arith, Bool-cases, inl, inr,
  if◌then◌else◌,
}
use fkie_cad_cwe_checker.Prelude.Outcome.{ok}
use fkie_cad_cwe_checker.Prelude.Key.{◌=?◌}
use fkie_cad_cwe_checker.BTreeSet
use fkie_cad_cwe_checker.BTreeSet.Laws.{contains-insert, contains-remove, contains-union}
use fkie_cad_cwe_checker.IntermediateRepresentation.Variable.{Variable, variable_ord}
use fkie_cad_cwe_checker.IntermediateRepresentation.Expression.{input_vars}
use fkie_cad_cwe_checker.IntermediateRepresentation.Def.{Def}
use fkie_cad_cwe_checker.IntermediateRepresentation.DeadVariableElim.{
  AliveVariables, all_alive, vars, bottom, is_empty, new_vars, remove, contains, insert, same_set,
  alive_eq, merge_different, merge, is_top, insert_all, update_alive_vars_by_def,
}

pub new_vars-contains :
    (v : Variable) (set : List Variable) → contains v (new_vars set) ≡ BTreeSet.contains v set
unfolding contains new_vars is_empty BTreeSet.contains
new_vars-contains v [] = refl
new_vars-contains v (w ∷ set) = refl

pub new_vars-is_top : (set : List Variable) → is_top (new_vars set) ≡ false
unfolding is_top new_vars is_empty
new_vars-is_top [] = refl
new_vars-is_top (w ∷ set) = refl

pub insert-contains :
    (v w : Variable) (a : AliveVariables)
    → is_top a ≡ false
    → contains w (insert v a) ≡ (w =? v || contains w a)
unfolding contains insert is_top BTreeSet.contains
insert-contains v w all_alive h = ground arith
insert-contains v w bottom h = contains-insert v w []
insert-contains v w (vars s) h = ground (arith, contains-insert v w s, variable_ord.cmp_eq_iff w v)

pub insert-is_top : (v : Variable) (a : AliveVariables) → is_top (insert v a) ≡ is_top a
unfolding insert is_top
insert-is_top v all_alive = refl
insert-is_top v bottom = refl
insert-is_top v (vars s) = ground arith

-- Removing from a set that is not `Top` returns, without the variable.
pub record Removes (v : Variable) (a : AliveVariables) : Type 0 where
  pub out : AliveVariables
  pub returns : remove v a ≡ ok out
  pub not_top : is_top out ≡ false
  pub lookup : (w : Variable) → contains w out ≡ (not (w =? v) && contains w a)

pub remove-Removes : (v : Variable) (a : AliveVariables) → is_top a ≡ false → Removes v a
unfolding remove contains is_top
remove-Removes v all_alive h = absurd (ground arith)
remove-Removes v bottom h = record {
  out = bottom;
  returns = refl;
  not_top = refl;
  lookup = λ w. ground arith;
}
remove-Removes v (vars s) h = record {
  out = new_vars (BTreeSet.remove v s);
  returns = refl;
  not_top = new_vars-is_top (BTreeSet.remove v s);
  lookup = λ w. new_vars-contains w (BTreeSet.remove v s) ∙ contains-remove v w s;
}

same_set_sound : (s t : List Variable) → same_set s t ≡ true → s ≡ t
unfolding same_set
same_set_sound [] [] h = refl
same_set_sound [] (w ∷ t) h = ground arith
same_set_sound (v ∷ s) [] h = ground arith
same_set_sound (v ∷ s) (w ∷ t) h = ground (arith, variable_ord.cmp_eq_iff v w, same_set_sound s t)

-- A variable is alive in a merge exactly if it is alive in one of the two sets.
pub merge-contains :
    (v : Variable) (a b : AliveVariables) → contains v (merge a b) ≡ (contains v a || contains v b)
unfolding merge merge_different alive_eq contains
merge-contains v all_alive all_alive = refl
merge-contains v all_alive (vars t) = refl
merge-contains v all_alive bottom = refl
merge-contains v (vars s) all_alive = ground arith
merge-contains v (vars s) bottom = ground arith
merge-contains v (vars s) (vars t) = elim (Bool-cases (same_set s t)) [
  | inl same ↦ let e : s ≡ t = same_set_sound s t same in ground arith
  | inr other ↦ ground (arith, contains-union v s t)
]
merge-contains v bottom all_alive = refl
merge-contains v bottom (vars t) = refl
merge-contains v bottom bottom = refl

-- All of the variables are among `all_variables`.
abbrev pub AreKnown : List Variable → List Variable → Type 0
AreKnown all_variables xs =
    (v : Variable) → BTreeSet.contains v xs ≡ true → BTreeSet.contains v all_variables ≡ true

pub record Inserts (all_variables xs : List Variable) (a : AliveVariables) : Type 0 where
  pub out : AliveVariables
  pub returns : insert_all all_variables xs a ≡ ok out
  pub not_top : is_top out ≡ false
  pub lookup : (w : Variable) → contains w out ≡ (BTreeSet.contains w xs || contains w a)

pub insert_all-Inserts :
    (all_variables xs : List Variable) (a : AliveVariables)
    → is_top a ≡ false
    → AreKnown all_variables xs
    → Inserts all_variables xs a
unfolding insert_all BTreeSet.contains
insert_all-Inserts all_variables [] a h known = record {
  out = a;
  returns = refl;
  not_top = h;
  lookup = λ w. refl;
}
insert_all-Inserts all_variables (x ∷ xs) a h known =
    let r =
      insert_all-Inserts all_variables xs (insert x a) (insert-is_top x a ∙ h)
        (λ v k. known v (ground arith)) in
    let here : BTreeSet.contains x all_variables ≡ true =
      known x (ground (arith, variable_ord.cmp_eq_iff x x)) in
    record {
      out = r.out;
      returns = ground (arith, r.returns);
      not_top = r.not_top;
      lookup = λ w. ground (arith, r.lookup w, insert-contains x w a h);
    }

module _ {Bitvector : Type 0} where
  abbrev pub InputsKnown : Def Bitvector → List Variable → Type 0
  InputsKnown (Def.load v address) all_variables = AreKnown all_variables (input_vars address)
  InputsKnown (Def.assign v value) all_variables = AreKnown all_variables (input_vars value)
  InputsKnown (Def.store address value) all_variables =
      AreKnown all_variables (input_vars address) × AreKnown all_variables (input_vars value)

  -- The equations of the alive variables: whether `w` is alive before a `Def`, if `alive` says what
  -- is alive after it.
  abbrev pub alive_before : (Variable → Bool) → Def Bitvector → Variable → Bool
  alive_before alive (Def.load v address) w =
      BTreeSet.contains w (input_vars address) || (not (w =? v) && alive w)
  alive_before alive (Def.assign v value) w =
      if alive v
      then BTreeSet.contains w (input_vars value) || (not (w =? v) && alive w)
      else alive w
  alive_before alive (Def.store address value) w =
      BTreeSet.contains w (input_vars value)
      || (BTreeSet.contains w (input_vars address) || alive w)

  pub record Updates (all_variables : List Variable) (a : AliveVariables) (d : Def Bitvector)
      : Type 0 where
    pub out : AliveVariables
    pub returns : update_alive_vars_by_def all_variables a d ≡ ok out
    pub not_top : is_top out ≡ false
    pub lookup : (w : Variable) → contains w out ≡ alive_before (λ v. contains v a) d w

  -- If all variables of a `Def` are known, the update does not panic, and gives the variables that
  -- the equations say are alive before the `Def`.
  pub update_alive_vars_by_def-Updates :
      (all_variables : List Variable) (a : AliveVariables) (d : Def Bitvector)
      → is_top a ≡ false
      → InputsKnown d all_variables
      → Updates all_variables a d
  unfolding update_alive_vars_by_def
  update_alive_vars_by_def-Updates all_variables a (Def.load v address) h known =
      let r = remove-Removes v a h in
      let i = insert_all-Inserts all_variables (input_vars address) r.out r.not_top known in
      record {
        out = i.out;
        returns = ground (arith, r.returns, i.returns);
        not_top = i.not_top;
        lookup = λ w. ground (arith, i.lookup w, r.lookup w);
      }
  update_alive_vars_by_def-Updates all_variables a (Def.store address value) h (known, known') =
      let i = insert_all-Inserts all_variables (input_vars address) a h known in
      let j = insert_all-Inserts all_variables (input_vars value) i.out i.not_top known' in
      record {
        out = j.out;
        returns = ground (arith, i.returns, j.returns);
        not_top = j.not_top;
        lookup = λ w. ground (arith, i.lookup w, j.lookup w);
      }
  update_alive_vars_by_def-Updates all_variables a (Def.assign v value) h known =
      elim (Bool-cases (contains v a)) [
        | inl alive ↦
            let r = remove-Removes v a h in
            let i = insert_all-Inserts all_variables (input_vars value) r.out r.not_top known in
            record {
              out = i.out;
              returns = ground (arith, r.returns, i.returns);
              not_top = i.not_top;
              lookup = λ w. ground (arith, i.lookup w, r.lookup w);
            }
        | inr dead ↦ record {
          out = a;
          returns = ground arith;
          not_top = h;
          lookup = λ w. ground arith;
        }
      ]
