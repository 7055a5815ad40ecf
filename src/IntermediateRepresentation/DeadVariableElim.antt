-- ===== src/IntermediateRepresentation/DeadVariableElim.antt =====
-- src/cwe_checker_lib/src/intermediate_representation/project/ir_passes/dead_variable_elim: the
-- pass that removes assignments to variables that are not read again.
pub mod Alive
pub mod Jumps
pub mod Execution
pub mod Removal
mod Tests
use fkie_cad_cwe_checker.Prelude.{
  ℕ, Bool, true, false, not, Option, none, some, List, [], ◌∷◌, if◌then◌else◌,
}
use fkie_cad_cwe_checker.Prelude.Outcome.{Outcome, ok, panic, ◌>>=◌, ◌>>◌, unwrap}
use fkie_cad_cwe_checker.Prelude.Key.{◌=?◌, nat_ord}
use fkie_cad_cwe_checker.BTreeMap
use fkie_cad_cwe_checker.BTreeSet
use fkie_cad_cwe_checker.IntermediateRepresentation.Variable.{Variable, variable_ord}
use fkie_cad_cwe_checker.IntermediateRepresentation.Expression.{input_vars}
use fkie_cad_cwe_checker.IntermediateRepresentation.Def.{Term, Def, Jmp, Blk}

-- The two structs `AliveVariables` and `AliveVariablesInner`, which share the sets through `Arc`.
pub data AliveVariables : Type 0 where
  all_alive : AliveVariables
  vars : List Variable → AliveVariables
  bottom : AliveVariables

pub is_empty : List Variable → Bool
is_empty [] = true
is_empty (_ ∷ _) = false

pub new_vars : List Variable → AliveVariables
unfolding is_empty
new_vars set = if is_empty set then bottom else vars set

pub to_owned : AliveVariables → Outcome (List Variable)
to_owned all_alive = panic
to_owned bottom = ok []
to_owned (vars set) = ok set

pub remove : Variable → AliveVariables → Outcome AliveVariables
unfolding new_vars
remove v all_alive = panic
remove v bottom = ok bottom
remove v (vars set) = ok (new_vars (BTreeSet.remove v set))

pub contains : Variable → AliveVariables → Bool
contains v all_alive = true
contains v bottom = false
contains v (vars set) = BTreeSet.contains v set

pub insert : Variable → AliveVariables → AliveVariables
insert v all_alive = all_alive
insert v bottom = vars (BTreeSet.insert v [])
insert v (vars set) =
    if not (BTreeSet.contains v set) then vars (BTreeSet.insert v set) else vars set

-- The derived equality of two sets of variables.
pub same_set : List Variable → List Variable → Bool
same_set [] [] = true
same_set [] (_ ∷ _) = false
same_set (_ ∷ _) [] = false
same_set (v ∷ s) (w ∷ t) = if v =? w then same_set s t else false

pub alive_eq : AliveVariables → AliveVariables → Bool
unfolding same_set
alive_eq all_alive all_alive = true
alive_eq all_alive (vars t) = false
alive_eq all_alive bottom = false
alive_eq (vars s) all_alive = false
alive_eq (vars s) (vars t) = same_set s t
alive_eq (vars s) bottom = false
alive_eq bottom all_alive = false
alive_eq bottom (vars t) = false
alive_eq bottom bottom = true

-- The `match` of `merge`, in the order of its arms.
pub merge_different : AliveVariables → AliveVariables → AliveVariables
merge_different all_alive other = all_alive
merge_different (vars a) bottom = vars a
merge_different bottom bottom = bottom
merge_different (vars a) all_alive = all_alive
merge_different bottom all_alive = all_alive
merge_different bottom (vars b) = vars b
merge_different (vars a) (vars b) = vars (BTreeSet.union a b)

pub merge : AliveVariables → AliveVariables → AliveVariables
unfolding merge_different alive_eq
merge self other = if alive_eq self other then self else merge_different self other

pub is_top : AliveVariables → Bool
is_top a = elim a [ all_alive ↦ true | _ ↦ false ]

-- The loops over the input variables: one that is not among all variables is a panic.
pub insert_all : List Variable → List Variable → AliveVariables → Outcome AliveVariables
unfolding insert
insert_all all_variables [] alive_variables = ok alive_variables
insert_all all_variables (input_var ∷ input_vars) alive_variables =
    let rest = insert_all all_variables input_vars (insert input_var alive_variables) in
    if BTreeSet.contains input_var all_variables then rest else panic

module _ {Bitvector : Type 0} where
  pub update_alive_vars_by_def :
      List Variable → AliveVariables → Def Bitvector → Outcome AliveVariables
  unfolding insert_all remove contains
  update_alive_vars_by_def all_variables alive_variables (Def.assign v value) =
      if contains v alive_variables
      then (do
        removed ← remove v alive_variables
        insert_all all_variables (input_vars value) removed)
      else ok alive_variables
  update_alive_vars_by_def all_variables alive_variables (Def.load v address) = do
    removed ← remove v alive_variables
    insert_all all_variables (input_vars address) removed
  update_alive_vars_by_def all_variables alive_variables (Def.store address value) = do
    with_address ← insert_all all_variables (input_vars address) alive_variables
    insert_all all_variables (input_vars value) with_address

  -- Whether the loop drops the `Def`: an assignment to a variable that is not alive.
  pub is_dead : AliveVariables → Def Bitvector → Bool
  unfolding contains
  is_dead alive_vars (Def.assign v value) = not (contains v alive_vars)
  is_dead alive_vars (Def.load v address) = false
  is_dead alive_vars (Def.store address value) = false

  -- The loop over the `Def`s in reverse order: what is kept, in the order of execution, and the
  -- variables that are alive before it.
  pub clean_defs :
      List Variable
      → AliveVariables
      → List (Term (Def Bitvector))
      → Outcome (AliveVariables × List (Term (Def Bitvector)))
  unfolding is_dead update_alive_vars_by_def
  clean_defs all_variables alive_vars [] = ok (alive_vars, [])
  clean_defs all_variables alive_vars (d ∷ defs) = do
    (after, cleaned_defs) ← clean_defs all_variables alive_vars defs
    let keep = do
      before ← update_alive_vars_by_def all_variables after d.term
      ok (before, d ∷ cleaned_defs)
    if is_dead after d.term then ok (after, cleaned_defs) else keep

  pub remove_dead_var_assignments_of_block :
      List (ℕ × List Variable)
      → List Variable
      → Term (Blk Bitvector)
      → Outcome (Term (Blk Bitvector))
  unfolding clean_defs new_vars
  remove_dead_var_assignments_of_block alive_vars_map all_variables block = do
    alive ← unwrap (BTreeMap.get block.tid alive_vars_map)
    (before, cleaned_defs) ← clean_defs all_variables (new_vars alive) block.term.defs
    ok (record block { term = record block.term { defs = cleaned_defs } })

  -- The input variables of the condition or target of a jump, as far as `update_jumpsite` reads it.
  pub jumpsite_inputs : Jmp Bitvector → List Variable
  jumpsite_inputs j = elim j [
    | Jmp.c_branch target condition ↦ input_vars condition
    | Jmp.branch_ind e ↦ input_vars e
    | _ ↦ []
  ]

  pub untaken_inputs : Option (Jmp Bitvector) → List Variable
  untaken_inputs none = []
  untaken_inputs (some j) = elim j [ Jmp.c_branch target condition ↦ input_vars condition | _ ↦ [] ]

  pub update_jumpsite :
      List Variable
      → AliveVariables
      → Term (Jmp Bitvector)
      → Option (Jmp Bitvector)
      → Outcome AliveVariables
  unfolding jumpsite_inputs untaken_inputs insert_all
  update_jumpsite all_variables alive_vars_after_jump jump untaken_conditional = do
    with_jump ← insert_all all_variables (jumpsite_inputs jump.term) alive_vars_after_jump
    insert_all all_variables (untaken_inputs untaken_conditional) with_jump

  -- `update_callsite` and `update_call_stub`, which do the same.
  pub update_call : List Variable → AliveVariables → Term (Jmp Bitvector) → Outcome AliveVariables
  unfolding insert_all
  update_call all_variables all_phys_registers jump =
      insert_all all_variables
        (elim jump.term [ Jmp.call_ind target ret ↦ input_vars target | _ ↦ [] ]) all_phys_registers
