-- ===== src/IntermediateRepresentation/Def.antt =====
-- src/cwe_checker_lib/src/intermediate_representation/{def,jmp,blk,term}.rs: the instructions of a
-- block. A term identifier is a number; the targets that a block's `Jmp` may have are not modelled.
use fkie_cad_cwe_checker.Prelude.{ℕ, ◌+◌, Option, none, List, Bool, true, false}
use fkie_cad_cwe_checker.IntermediateRepresentation.Variable.{Variable}
use fkie_cad_cwe_checker.IntermediateRepresentation.Expression
use fkie_cad_cwe_checker.IntermediateRepresentation.Expression.{Expression}

pub record Term (T : Type 0) : Type 0 where
  pub tid : ℕ
  pub term : T

pub data Def (Bitvector : Type 0) : Type 0 where
  load : Variable → Expression Bitvector → Def Bitvector
  store : Expression Bitvector → Expression Bitvector → Def Bitvector
  assign : Variable → Expression Bitvector → Def Bitvector

pub data Jmp (Bitvector : Type 0) : Type 0 where
  branch : ℕ → Jmp Bitvector
  branch_ind : Expression Bitvector → Jmp Bitvector
  c_branch : ℕ → Expression Bitvector → Jmp Bitvector
  call : ℕ → Option ℕ → Jmp Bitvector
  call_ind : Expression Bitvector → Option ℕ → Jmp Bitvector
  return : Expression Bitvector → Jmp Bitvector
  call_other : List ℕ → Option ℕ → Jmp Bitvector

pub record Blk (Bitvector : Type 0) : Type 0 where
  pub defs : List (Term (Def Bitvector))
  pub jmps : List (Term (Jmp Bitvector))

module _ {Bitvector : Type 0} where
  unfoldable pub def_substitute_input_var :
      Variable → Expression Bitvector → Def Bitvector → Def Bitvector
  def_substitute_input_var input_var replacement (assign v value) =
      assign v (Expression.substitute_input_var input_var replacement value)
  def_substitute_input_var input_var replacement (load v address) =
      load v (Expression.substitute_input_var input_var replacement address)
  def_substitute_input_var input_var replacement (store address value) =
      store (Expression.substitute_input_var input_var replacement address)
        (Expression.substitute_input_var input_var replacement value)

  pub def_referenced_constants : Def Bitvector → Option (List Bitvector)
  def_referenced_constants (load v address) = Expression.referenced_constants address
  def_referenced_constants (assign v value) = Expression.referenced_constants value
  def_referenced_constants (store address value) =
      Expression.join_constants (Expression.referenced_constants address)
        (Expression.referenced_constants value)

  pub def_recursion_depth : Def Bitvector → ℕ
  def_recursion_depth (load v address) = Expression.recursion_depth address
  def_recursion_depth (assign v value) = Expression.recursion_depth value
  def_recursion_depth (store address value) =
      Expression.recursion_depth address + Expression.recursion_depth value

  pub jmp_referenced_constants : Jmp Bitvector → Option (List Bitvector)
  jmp_referenced_constants (return e) = Expression.referenced_constants e
  jmp_referenced_constants (call_ind target ret) = Expression.referenced_constants target
  jmp_referenced_constants (c_branch target condition) = Expression.referenced_constants condition
  jmp_referenced_constants (branch_ind e) = Expression.referenced_constants e
  jmp_referenced_constants (branch t) = none
  jmp_referenced_constants (call t ret) = none
  jmp_referenced_constants (call_other d ret) = none

  pub is_call : Jmp Bitvector → Bool
  is_call j = elim j [
    | call target ret ↦ true
    | call_ind target ret ↦ true
    | call_other description ret ↦ true
    | _ ↦ false
  ]
