-- ===== src/IntermediateRepresentation/DeadVariableElim/Tests.antt =====
-- Dead assignments of a block of four instructions.
use fkie_cad_cwe_checker.Prelude.{ℕ, ◌≡◌, refl, ◌+◌, false, List, [], ◌∷◌, some, arith, ◌||◌}
use fkie_cad_cwe_checker.Prelude.Outcome.{ok}
use fkie_cad_cwe_checker.Prelude.Key.{nat_ord}
use fkie_cad_cwe_checker.BTreeMap
use fkie_cad_cwe_checker.BTreeSet
use fkie_cad_cwe_checker.IntermediateRepresentation.Variable.{
  Variable, variable_ord, compare_variable, compare_string, compare_bool,
}
use fkie_cad_cwe_checker.IntermediateRepresentation.Expression.{Expression, BinOpType, input_vars}
use fkie_cad_cwe_checker.IntermediateRepresentation.Expression.Semantics.{Meaning}
use fkie_cad_cwe_checker.IntermediateRepresentation.Def.{Term, Def, Jmp, Blk}
use fkie_cad_cwe_checker.IntermediateRepresentation.DeadVariableElim.{
  AliveVariables, remove_dead_var_assignments_of_block, is_top, contains, merge,
}
use fkie_cad_cwe_checker.IntermediateRepresentation.DeadVariableElim.Alive.{
  Updates, update_alive_vars_by_def-Updates, merge-contains,
}
use fkie_cad_cwe_checker.IntermediateRepresentation.DeadVariableElim.Execution.{Machine}
use fkie_cad_cwe_checker.IntermediateRepresentation.DeadVariableElim.Removal.{
  AllKnown, Keeps, Cleans, clean_defs-Cleans, remove_dead_var_assignments_of_block-Keeps,
}

abbrev meaning : Meaning ℕ
meaning = record {
  Value = ℕ;
  constant = λ c. c;
  binary = λ op x y. x + y;
  unary = λ op x. x;
  converted = λ op size x. x;
  unspecified = λ description size. 0;
  extracted = λ low size x. x;
}

-- A memory of one cell.
abbrev machine : Machine ℕ
machine = record {
  meaning = meaning;
  Memory = ℕ;
  read = λ m address size. m;
  write = λ m address value. value;
}

abbrev reg_a : Variable
reg_a = record { name = 65 ∷ []; size = 8; is_temp = false }

abbrev reg_b : Variable
reg_b = record { name = 66 ∷ []; size = 8; is_temp = false }

abbrev reg_c : Variable
reg_c = record { name = 67 ∷ []; size = 8; is_temp = false }

abbrev all_registers : List Variable
all_registers = reg_a ∷ reg_b ∷ reg_c ∷ []

abbrev a_plus_b : Expression ℕ
a_plus_b = Expression.bin_op BinOpType.int_add (Expression.var reg_a) (Expression.var reg_b)

-- `B = A; C = B; B = A + B; C = Load from A`
abbrev block : Term (Blk ℕ)
block = record {
  tid = 7;
  term = record {
    defs =
        record { tid = 1; term = Def.assign reg_b (Expression.var reg_a) }
        ∷ record { tid = 2; term = Def.assign reg_c (Expression.var reg_b) }
        ∷ record { tid = 3; term = Def.assign reg_b a_plus_b }
        ∷ record { tid = 4; term = Def.load reg_c (Expression.var reg_a) }
        ∷ [];
    jmps = record { tid = 5; term = Jmp.return (Expression.var reg_c) } ∷ [];
  };
}

abbrev alive_map : List (ℕ × List Variable)
alive_map = (7, reg_b ∷ []) ∷ []

all_known : AllKnown all_registers block.term.defs
unfolding BTreeSet.contains input_vars
all_known =
    (λ w h. ground arith, (λ w h. ground arith, (λ w h. ground arith, (λ w h. ground arith, tt))))

remove_dead_var_assignments_of_block-Keeps_example :
    Keeps machine all_registers (reg_b ∷ []) alive_map block
unfolding BTreeMap.get
remove_dead_var_assignments_of_block-Keeps_example =
    remove_dead_var_assignments_of_block-Keeps machine all_registers (reg_b ∷ []) alive_map block
      refl all_known

clean_defs-Cleans_example : Cleans all_registers (AliveVariables.vars (reg_c ∷ [])) block.term.defs
unfolding is_top
clean_defs-Cleans_example =
    clean_defs-Cleans all_registers (AliveVariables.vars (reg_c ∷ [])) block.term.defs refl
      all_known

update_alive_vars_by_def-Updates_example :
    Updates all_registers (AliveVariables.vars (reg_b ∷ [])) (Def.assign reg_b a_plus_b)
unfolding is_top BTreeSet.contains input_vars
update_alive_vars_by_def-Updates_example =
    update_alive_vars_by_def-Updates all_registers (AliveVariables.vars (reg_b ∷ []))
      (Def.assign reg_b a_plus_b) refl (λ w h. ground arith)

merge-contains_example :
    contains reg_a (merge (AliveVariables.vars (reg_a ∷ [])) (AliveVariables.vars (reg_b ∷ []))) ≡ (
      contains reg_a (AliveVariables.vars (reg_a ∷ []))
      || contains reg_a (AliveVariables.vars (reg_b ∷ [])))
merge-contains_example =
    merge-contains reg_a (AliveVariables.vars (reg_a ∷ [])) (AliveVariables.vars (reg_b ∷ []))

abbrev value_b : Expression ℕ
value_b = Expression.var reg_b

abbrev jump_to_a : Jmp ℕ
jump_to_a = Jmp.branch_ind (Expression.var reg_a)

abbrev call_b : Jmp ℕ
call_b = Jmp.call_ind value_b (some 2)

-- The assignment to `C` is dead, since the load overwrites it.
cleaned :
    remove_dead_var_assignments_of_block alive_map all_registers block
    ≡ ok (record block {
      term = record block.term {
        defs =
            record { tid = 1; term = Def.assign reg_b (Expression.var reg_a) }
            ∷ record { tid = 3; term = Def.assign reg_b a_plus_b }
            ∷ record { tid = 4; term = Def.load reg_c (Expression.var reg_a) }
            ∷ [];
      };
    })
unfolding remove_dead_var_assignments_of_block BTreeMap.get input_vars BTreeSet.contains
    compare_variable compare_string compare_bool BTreeSet.remove BTreeSet.insert
cleaned = refl
