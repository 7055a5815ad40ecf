-- ===== src/IntermediateRepresentation/DeadVariableElim/Execution.antt =====
-- What the instructions of a block do to registers and memory.
use fkie_cad_cwe_checker.Prelude.{
  ℕ, ◌≡◌, Bool, true, false, not, List, [], ◌∷◌, arith, inl, inr, Bool-cases,
}
use fkie_cad_cwe_checker.Prelude.Key.{◌=?◌}
use mathlib.Core.Path.{ap₂}
use fkie_cad_cwe_checker.IntermediateRepresentation.Variable.{Variable, variable_ord}
use fkie_cad_cwe_checker.IntermediateRepresentation.Expression.{Expression}
use fkie_cad_cwe_checker.IntermediateRepresentation.Expression.Semantics.{
  Meaning, Registers, evaluate, assign, evaluate-input_vars,
}
use fkie_cad_cwe_checker.IntermediateRepresentation.Def.{Term, Def}
use fkie_cad_cwe_checker.IntermediateRepresentation.DeadVariableElim.Alive.{alive_before}

-- The meaning of expressions and of the memory: a read gives a value of the size that is asked for.
pub record Machine (Bitvector : Type 0) : Type 1 where
  pub meaning : Meaning Bitvector
  pub open meaning use *
  pub Memory : Type 0
  pub read : Memory → Value → ℕ → Value
  pub write : Memory → Value → Value → Memory

module _ {Bitvector : Type 0} (machine : Machine Bitvector) where
  open machine use {meaning, Memory, read, write}

  pub record State : Type 0 where
    pub registers : Registers meaning
    pub memory : Memory

  abbrev pub execute : Def Bitvector → State → State
  execute (Def.load v address) s = record s {
    registers =
        assign meaning v (read s.memory (evaluate meaning s.registers address) v.size) s.registers;
  }
  execute (Def.store address value) s = record s {
    memory =
        write s.memory (evaluate meaning s.registers address) (evaluate meaning s.registers value);
  }
  execute (Def.assign v value) s = record s {
    registers = assign meaning v (evaluate meaning s.registers value) s.registers;
  }

  abbrev pub execute_all : List (Term (Def Bitvector)) → State → State
  execute_all [] s = s
  execute_all (d ∷ defs) s = execute_all defs (execute d.term s)

  -- The two states have the same memory and the same values of the given variables.
  pub record Agree (alive : Variable → Bool) (s t : State) : Type 0 where
    pub registers : (v : Variable) → alive v ≡ true → s.registers v ≡ t.registers v
    pub memory : s.memory ≡ t.memory

  -- An assignment to a variable that is not alive can be left out.
  pub execute-dead :
      (alive : Variable → Bool) (v : Variable) (value : Expression Bitvector) (s t : State)
      → alive v ≡ false
      → Agree alive s t
      → Agree alive (execute (Def.assign v value) s) t
  execute-dead alive v value s t dead agree = record {
    registers = λ w h. ground (arith, variable_ord.cmp_eq_iff w v, agree.registers w h);
    memory = agree.memory;
  }

  assign-agree :
      (v w : Variable) (x y : meaning.Value) (s t : Registers meaning)
      → x ≡ y
      → (not (w =? v) ≡ true → s w ≡ t w)
      → assign meaning v x s w ≡ assign meaning v y t w
  assign-agree v w x y s t value other = elim (Bool-cases (w =? v)) [
    | inl same ↦ ground arith
    | inr differ ↦ ground (arith, other (ground arith))
  ]

  -- States that agree on what is alive before an instruction agree, after it, on what is alive
  -- then.
  pub execute-Agree :
      (alive : Variable → Bool) (d : Def Bitvector) (s t : State)
      → Agree (alive_before alive d) s t
      → Agree alive (execute d s) (execute d t)
  execute-Agree alive (Def.load v address) s t agree =
      let place =
        evaluate-input_vars meaning s.registers t.registers address
          (λ u k. agree.registers u (ground arith)) in
      record {
        registers = λ w h.
            assign-agree v w _ _ s.registers t.registers
              (ap₂ (λ m p. read m p v.size) agree.memory place)
              (λ k. agree.registers w (ground arith));
        memory = agree.memory;
      }
  execute-Agree alive (Def.store address value) s t agree =
      let place =
        evaluate-input_vars meaning s.registers t.registers address
          (λ u k. agree.registers u (ground arith)) in
      let stored =
        evaluate-input_vars meaning s.registers t.registers value
          (λ u k. agree.registers u (ground arith)) in
      record {
        registers = λ w h. agree.registers w (ground arith);
        memory =
            ap₂ (λ (m : Memory) (f : Memory → Memory). f m) agree.memory
              (ap₂ (λ p x m. write m p x) place stored);
      }
  execute-Agree alive (Def.assign v value) s t agree = elim (Bool-cases (alive v)) [
    | inl live ↦
        let result =
          evaluate-input_vars meaning s.registers t.registers value
            (λ u k. agree.registers u (ground arith)) in
        record {
          registers = λ w h.
              assign-agree v w _ _ s.registers t.registers result
                (λ k. agree.registers w (ground arith));
          memory = agree.memory;
        }
    | inr dead ↦ record {
      registers = λ w h.
          let other = agree.registers w (ground arith) in
          ground (arith, variable_ord.cmp_eq_iff w v);
      memory = agree.memory;
    }
  ]
