-- ===== src/IntermediateRepresentation/DeadVariableElim/Removal.antt =====
-- The removal of dead assignments from a block keeps what the block does.
use fkie_cad_cwe_checker.Prelude.{
  ℕ, ◌≡◌, refl, sym, ◌∙◌, Bool, true, false, some, List, [], ◌∷◌, arith, inl, inr, Bool-cases,
}
use fkie_cad_cwe_checker.Prelude.Outcome.{Outcome, ok, ◌>>=◌}
use fkie_cad_cwe_checker.Prelude.Key.{nat_ord}
use mathlib.Core.Path.{subst, subst₂}
use fkie_cad_cwe_checker.BTreeSet
use fkie_cad_cwe_checker.BTreeMap
use fkie_cad_cwe_checker.IntermediateRepresentation.Variable.{Variable, variable_ord}
use fkie_cad_cwe_checker.IntermediateRepresentation.Def.{Term, Def, Blk}
use fkie_cad_cwe_checker.IntermediateRepresentation.DeadVariableElim.{
  AliveVariables, new_vars, contains, is_top, is_dead, update_alive_vars_by_def, clean_defs,
  remove_dead_var_assignments_of_block,
}
use fkie_cad_cwe_checker.IntermediateRepresentation.DeadVariableElim.Alive.{
  alive_before, InputsKnown, update_alive_vars_by_def-Updates, new_vars-contains, new_vars-is_top,
}
use fkie_cad_cwe_checker.IntermediateRepresentation.DeadVariableElim.Execution.{
  Machine, State, execute, execute_all, Agree, execute-dead, execute-Agree,
}

module _ {Bitvector : Type 0} where
  abbrev pub AllKnown : List Variable → List (Term (Def Bitvector)) → Type 0
  AllKnown all_variables [] = Unit
  AllKnown all_variables (d ∷ defs) = InputsKnown d.term all_variables × AllKnown all_variables defs

  -- The update by each `Def` of a block in reverse order, as the fixpoint computation does it
  -- without removing anything.
  abbrev pub update_all :
      List Variable → AliveVariables → List (Term (Def Bitvector)) → Outcome AliveVariables
  update_all all_variables alive [] = ok alive
  update_all all_variables alive (d ∷ defs) = do
    after ← update_all all_variables alive defs
    update_alive_vars_by_def all_variables after d.term

  update-dead :
      (all_variables : List Variable) (a : AliveVariables) (d : Def Bitvector)
      → is_dead a d ≡ true
      → update_alive_vars_by_def all_variables a d ≡ ok a
  unfolding update_alive_vars_by_def is_dead
  update-dead all_variables a (Def.load v address) h = ground arith
  update-dead all_variables a (Def.store address value) h = ground arith
  update-dead all_variables a (Def.assign v value) h = ground arith

  -- What the loop gives: the variables alive before the block are those of the fixpoint
  -- computation, for the cleaned block as for the original one, and cleaning again keeps all.
  pub record Cleans (all_variables : List Variable) (a : AliveVariables)
      (defs : List (Term (Def Bitvector))) : Type 0 where
    pub before : AliveVariables
    pub cleaned : List (Term (Def Bitvector))
    pub returns : clean_defs all_variables a defs ≡ ok (before, cleaned)
    pub not_top : is_top before ≡ false
    pub same_update : update_all all_variables a defs ≡ ok before
    pub again : clean_defs all_variables a cleaned ≡ ok (before, cleaned)

  -- If all variables that the block reads are known, the loop does not panic. It ends with the
  -- variables that the update by every instruction, dead ones included, gives, and cleaning what it
  -- keeps again keeps all of it.
  pub clean_defs-Cleans :
      (all_variables : List Variable) (a : AliveVariables) (defs : List (Term (Def Bitvector)))
      → is_top a ≡ false
      → AllKnown all_variables defs
      → Cleans all_variables a defs
  unfolding clean_defs
  clean_defs-Cleans all_variables a [] h known = record {
    before = a;
    cleaned = [];
    returns = refl;
    not_top = h;
    same_update = refl;
    again = refl;
  }
  clean_defs-Cleans all_variables a (d ∷ defs) h (here, known) =
      let r = clean_defs-Cleans all_variables a defs h known in
      elim (Bool-cases (is_dead r.before d.term)) [
        | inl dead ↦ record {
          before = r.before;
          cleaned = r.cleaned;
          returns = ground (arith, r.returns);
          not_top = r.not_top;
          same_update =
              ground (arith, r.same_update, update-dead all_variables r.before d.term dead);
          again = r.again;
        }
        | inr alive ↦
            let u = update_alive_vars_by_def-Updates all_variables r.before d.term r.not_top here in
            record {
              before = u.out;
              cleaned = d ∷ r.cleaned;
              returns = ground (arith, r.returns, u.returns);
              not_top = u.not_top;
              same_update = ground (arith, r.same_update, u.returns);
              again = ground (arith, r.again, u.returns);
            }
      ]

  module _ (machine : Machine Bitvector) where
    weaken :
        (f g : Variable → Bool) (s t : State machine)
        → ((v : Variable) → f v ≡ g v)
        → Agree machine g s t
        → Agree machine f s t
    weaken f g s t same agree = record {
      registers = λ v h. agree.registers v (sym (same v) ∙ h);
      memory = agree.memory;
    }

    dead-step :
        (a : AliveVariables) (d : Def Bitvector) (s t : State machine)
        → is_dead a d ≡ true
        → Agree machine (λ v. contains v a) s t
        → Agree machine (λ v. contains v a) (execute machine d s) t
    unfolding is_dead
    dead-step a (Def.load v address) s t h agree = absurd (ground arith)
    dead-step a (Def.store address value) s t h agree = absurd (ground arith)
    dead-step a (Def.assign v value) s t h agree =
        execute-dead machine (λ w. contains w a) v value s t (ground arith) agree

    -- From states that agree on what is alive before the block, the block and the cleaned block
    -- lead to states that agree on what is alive after it.
    pub clean_defs-Agree :
        (all_variables : List Variable) (a : AliveVariables)
        (defs cleaned : List (Term (Def Bitvector))) (before : AliveVariables)
        → is_top a ≡ false
        → AllKnown all_variables defs
        → clean_defs all_variables a defs ≡ ok (before, cleaned)
        → (s t : State machine) → Agree machine (λ v. contains v before) s t
        → Agree machine
            (λ v. contains v a)
            (execute_all machine defs s)
            (execute_all machine cleaned t)
    unfolding clean_defs
    clean_defs-Agree all_variables a [] cleaned before h known e s t agree =
        let none_left : [] ≡ cleaned = ground arith in
        let same : before ≡ a = ground arith in
        subst₂ (λ c b. Agree machine (λ v. contains v b) s (execute_all machine c t)) none_left same
          agree
    clean_defs-Agree all_variables a (d ∷ defs) cleaned before h (here, known) e s t agree =
        let r = clean_defs-Cleans all_variables a defs h known in
        elim (Bool-cases (is_dead r.before d.term)) [
          | inl dead ↦
              let same : before ≡ r.before = ground (arith, r.returns) in
              let kept : r.cleaned ≡ cleaned = ground (arith, r.returns) in
              let start = subst (λ b. Agree machine (λ v. contains v b) s t) same agree in
              subst
                (λ c.
                  Agree machine (λ v. contains v a) (execute_all machine (d ∷ defs) s)
                    (execute_all machine c t))
                kept
                (clean_defs-Agree all_variables a defs r.cleaned r.before h known r.returns
                  (execute machine d.term s) t (dead-step r.before d.term s t dead start))
          | inr alive ↦
              let u =
                update_alive_vars_by_def-Updates all_variables r.before d.term r.not_top here in
              let same : before ≡ u.out = ground (arith, r.returns, u.returns) in
              let kept : d ∷ r.cleaned ≡ cleaned = ground (arith, r.returns, u.returns) in
              let start = subst (λ b. Agree machine (λ v. contains v b) s t) same agree in
              subst
                (λ c.
                  Agree machine (λ v. contains v a) (execute_all machine (d ∷ defs) s)
                    (execute_all machine c t))
                kept
                (clean_defs-Agree all_variables a defs r.cleaned r.before h known r.returns
                  (execute machine d.term s) (execute machine d.term t)
                  (execute-Agree machine (λ v. contains v r.before) d.term s t
                    (weaken (alive_before (λ v. contains v r.before) d.term) (λ v. contains v u.out)
                      s t (λ v. sym (u.lookup v)) start)))
        ]

    -- What `remove_dead_var_assignments_of_block` makes of a block: another block with the same
    -- identifier and jumps, that leaves the same memory and the same values of the variables alive
    -- at the end, whatever the block starts from; doing it again changes nothing.
    pub record Keeps (all_variables alive : List Variable)
        (alive_vars_map : List (ℕ × List Variable)) (block : Term (Blk Bitvector)) : Type 0 where
      pub out : Term (Blk Bitvector)
      pub returns : remove_dead_var_assignments_of_block alive_vars_map all_variables block ≡ ok out
      pub same_tid : out.tid ≡ block.tid
      pub same_jmps : out.term.jmps ≡ block.term.jmps
      pub same_memory :
          (s : State machine)
          → (execute_all machine block.term.defs s).memory
            ≡ (execute_all machine out.term.defs s).memory
      pub same_registers :
          (s : State machine) (v : Variable)
          → BTreeSet.contains v alive ≡ true
          → (execute_all machine block.term.defs s).registers v
            ≡ (execute_all machine out.term.defs s).registers v
      pub idempotent :
          remove_dead_var_assignments_of_block alive_vars_map all_variables out ≡ ok out

    -- If the map has the variables alive at the end of a block, and all variables that the block
    -- reads are known, the removal of dead assignments does not panic. The new block has the same
    -- identifier and jumps, and from every state it leaves the same memory and the same values of
    -- the variables alive at the end; a second removal changes nothing.
    pub remove_dead_var_assignments_of_block-Keeps :
        (all_variables alive : List Variable) (alive_vars_map : List (ℕ × List Variable))
        (block : Term (Blk Bitvector))
        → BTreeMap.get block.tid alive_vars_map ≡ some alive
        → AllKnown all_variables block.term.defs
        → Keeps all_variables alive alive_vars_map block
    unfolding remove_dead_var_assignments_of_block
    remove_dead_var_assignments_of_block-Keeps all_variables alive alive_vars_map block found
          known =
        let a = new_vars alive in
        let not_top = new_vars-is_top alive in
        let r = clean_defs-Cleans all_variables a block.term.defs not_top known in
        let agree = λ (s : State machine).
          clean_defs-Agree all_variables a block.term.defs r.cleaned r.before not_top known
            r.returns s s (record { registers = λ v h. refl; memory = refl }) in
        record {
          out = record block { term = record block.term { defs = r.cleaned } };
          returns = ground (arith, found, r.returns);
          same_tid = refl;
          same_jmps = refl;
          same_memory = λ s. (agree s).memory;
          same_registers = λ s v h. (agree s).registers v (new_vars-contains v alive ∙ h);
          idempotent = ground (arith, found, r.again);
        }
