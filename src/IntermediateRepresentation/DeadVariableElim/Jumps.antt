-- ===== src/IntermediateRepresentation/DeadVariableElim/Jumps.antt =====
-- The variables alive before jumps and calls.
use fkie_cad_cwe_checker.IntermediateRepresentation.Expression.{Expression, input_vars}
use fkie_cad_cwe_checker.Prelude.{ℕ, ◌≡◌, false, ◌||◌, some, List, [], arith}
use fkie_cad_cwe_checker.Prelude.Outcome.{ok}
use fkie_cad_cwe_checker.BTreeSet
use fkie_cad_cwe_checker.IntermediateRepresentation.Variable.{Variable, variable_ord}
use fkie_cad_cwe_checker.IntermediateRepresentation.Def.{Jmp}
use fkie_cad_cwe_checker.IntermediateRepresentation.DeadVariableElim.{
  AliveVariables, contains, is_top, update_jumpsite, update_call, untaken_inputs, jumpsite_inputs,
}
use fkie_cad_cwe_checker.IntermediateRepresentation.DeadVariableElim.Alive.{
  AreKnown, insert_all-Inserts,
}

module _ {Bitvector : Type 0} where
  -- What a jump reads to find its target, within its function.
  abbrev pub reads : Jmp Bitvector → List Variable
  reads (Jmp.branch target) = []
  reads (Jmp.branch_ind e) = input_vars e
  reads (Jmp.c_branch target condition) = input_vars condition
  reads (Jmp.call target ret) = []
  reads (Jmp.call_ind target ret) = []
  reads (Jmp.return e) = []
  reads (Jmp.call_other description ret) = []

  -- What a call reads to find its target.
  abbrev pub call_reads : Jmp Bitvector → List Variable
  call_reads (Jmp.branch target) = []
  call_reads (Jmp.branch_ind e) = []
  call_reads (Jmp.c_branch target condition) = []
  call_reads (Jmp.call target ret) = []
  call_reads (Jmp.call_ind target ret) = input_vars target
  call_reads (Jmp.return e) = []
  call_reads (Jmp.call_other description ret) = []

  -- Before a jump, what is alive after it is alive, and what its target or condition and the
  -- condition of the conditional jump before it, if there is one, read. Nothing panics if all of
  -- these are known.
  pub update_jumpsite-contains :
      (all_variables : List Variable) (a : AliveVariables) (tid target : ℕ) (jump : Jmp Bitvector)
      (condition : Expression Bitvector)
      → is_top a ≡ false
      → AreKnown all_variables (reads jump)
      → AreKnown all_variables (input_vars condition)
      → (b : AliveVariables) × (update_jumpsite all_variables a
            (record { tid = tid; term = jump })
            (some (Jmp.c_branch target condition))
          ≡ ok b)
        × ((w : Variable)
            → contains w b ≡ (
                BTreeSet.contains w (input_vars condition)
                || (BTreeSet.contains w (reads jump) || contains w a)))
  unfolding update_jumpsite jumpsite_inputs untaken_inputs
  update_jumpsite-contains all_variables a tid target jump condition h known known' =
      let i = insert_all-Inserts all_variables (reads jump) a h known in
      let j = insert_all-Inserts all_variables (input_vars condition) i.out i.not_top known' in
      let inputs : jumpsite_inputs jump ≡ reads jump = ground arith in
      (
        j.out,
        rw inputs (ground (arith, i.returns, j.returns)),
        λ w. ground (arith, i.lookup w, j.lookup w),
      )

  -- Before a call exactly the physical registers and the variables that its target reads are alive.
  pub update_call-contains :
      (all_variables : List Variable) (phys : AliveVariables) (tid : ℕ) (site : Jmp Bitvector)
      → is_top phys ≡ false
      → AreKnown all_variables (call_reads site)
      → (b : AliveVariables) × (update_call all_variables phys (record { tid = tid; term = site })
          ≡ ok b)
        × ((w : Variable)
            → contains w b ≡ (BTreeSet.contains w (call_reads site) || contains w phys))
  unfolding update_call
  update_call-contains all_variables phys tid site h known =
      let i = insert_all-Inserts all_variables (call_reads site) phys h known in
      (i.out, ground (arith, i.returns), i.lookup)
