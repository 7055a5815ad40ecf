-- ===== src/Analysis/Fixpoint/Extends.antt =====
-- Each operation of the computation only raises values, and marks the nodes that it changes.
use fkie_cad_cwe_checker.Prelude.{
  ℕ, ◌<◌, ◌≡◌, refl, ◌∙◌, inl, inr, true, some, arith, ◌==◌, Bool-cases, Option-cases,
}
use fkie_cad_cwe_checker.Prelude.Lists.{get_elem?-lt, get_elem?-some}
use mathlib.Core.Path.{subst}
use fkie_cad_cwe_checker.Prelude.Outcome.{Outcome, ok}
use fkie_cad_cwe_checker.Prelude.Key.{nat_ord}
use fkie_cad_cwe_checker.BTreeMap
use fkie_cad_cwe_checker.BTreeSet
use fkie_cad_cwe_checker.BTreeMap.Laws.{get-insert}
use fkie_cad_cwe_checker.BTreeSet.Laws.{contains-insert}
use fkie_cad_cwe_checker.BTreeSet.Bounded.{Within-insert}
use fkie_cad_cwe_checker.Analysis.Fixpoint.{Context, Computation, set_node_value, merge_node_value}
use fkie_cad_cwe_checker.Analysis.Fixpoint.Order.{IsOrdered, IsValid, Extends}

module _ (C : Context) (order : IsOrdered C) where
  open C use {NodeValue, graph, transfer, merge}
  open order use {Le, le_refl, le_trans, le-merge_left, le-merge_right, value_eq_sound}

  pub Extends-refl : (c : Computation C) → IsValid C c → Extends C order c c
  Extends-refl c v = record {
    valid = v;
    same_priorities = refl;
    same_nodes = refl;
    still_waits = λ p h. h;
    grows = λ n z h. (z, h, le_refl z);
    changed = λ n p h. inr refl;
  }

  pub Extends-trans :
      (a b c : Computation C) → Extends C order a b → Extends C order b c → Extends C order a c
  Extends-trans a b c f g = record {
    valid = g.valid;
    same_priorities = g.same_priorities ∙ f.same_priorities;
    same_nodes = g.same_nodes ∙ f.same_nodes;
    still_waits = λ p h. g.still_waits p (f.still_waits p h);
    grows = λ n z h.
        let u = f.grows n z h in
        let w = g.grows n u.0 u.1 in (w.0, w.1, le_trans z u.0 w.0 u.2 w.2);
    changed =
        λ n p h. ground (arith, f.changed n p h, g.changed n p, f.same_priorities, g.still_waits p);
  }

  -- `r` is a normal return of a state above `c` in which `n` has a value above `v`.
  pub record Gives (c : Computation C) (n : ℕ) (v : NodeValue) (r : Outcome (Computation C))
      : Type 0 where
    pub next : Computation C
    pub returns : r ≡ ok next
    pub extends : Extends C order c next
    pub value : NodeValue
    pub stored : BTreeMap.get n next.node_values ≡ some value
    pub above : Le v value

  insert-grows :
      (c : Computation C) (n : ℕ) (v : NodeValue)
      → ((old : NodeValue) → BTreeMap.get n c.node_values ≡ some old → Le old v)
      → (m : ℕ) (z : NodeValue) → BTreeMap.get m c.node_values ≡ some z
      → (z' : NodeValue) × (BTreeMap.get m (BTreeMap.insert n v c.node_values) ≡ some z') × Le z z'
  insert-grows c n v raises m z h = elim (Bool-cases (m == n)) [
    | inl e ↦
        let same : m ≡ n = ground arith in
        (v, ground (arith, get-insert n m v c.node_values), raises z (rw same at h))
    | inr e ↦ (z, ground (arith, get-insert n m v c.node_values), le_refl z)
  ]

  set_node_value-Gives :
      (c : Computation C) (n : ℕ) (v : NodeValue)
      → IsValid C c
      → n < graph.node_count
      → ((old : NodeValue) → BTreeMap.get n c.node_values ≡ some old → Le old v)
      → Gives c n v (set_node_value C n v c)
  unfolding set_node_value
  set_node_value-Gives c n v valid inside raises =
      let (p, found) = get_elem?-some c.node_priority_list n (omega (arith, valid.priorities)) in
      let lt : p < graph.node_count =
        omega (arith, get_elem?-lt _ p (valid.node_of n p found), valid.nodes) in
      record {
        next = record c {
          node_values = BTreeMap.insert n v c.node_values;
          worklist = BTreeSet.insert p c.worklist;
        };
        returns = rw found;
        extends = record {
          valid = record {
            priorities = valid.priorities;
            nodes = valid.nodes;
            node_of = valid.node_of;
            priority_of = valid.priority_of;
            pending = Within-insert 0 graph.node_count p c.worklist (omega arith) lt valid.pending;
          };
          same_priorities = refl;
          same_nodes = refl;
          still_waits = λ q h. ground (arith, contains-insert p q c.worklist);
          grows = insert-grows c n v raises;
          changed = λ m q h.
              ground (arith, found, contains-insert p q c.worklist, get-insert n m v c.node_values);
        };
        value = v;
        stored = ground (arith, get-insert n n v c.node_values);
        above = le_refl v;
      }

  Gives-weaken :
      (c : Computation C) (n : ℕ) (v w : NodeValue) (r : Outcome (Computation C))
      → Le v w
      → Gives c n w r
      → Gives c n v r
  Gives-weaken c n v w r h g = record {
    next = g.next;
    returns = g.returns;
    extends = g.extends;
    value = g.value;
    stored = g.stored;
    above = le_trans v w g.value h g.above;
  }

  pub merge_node_value-Gives :
      (c : Computation C) (n : ℕ) (v : NodeValue)
      → IsValid C c
      → n < graph.node_count
      → Gives c n v (merge_node_value C n v c)
  unfolding merge_node_value
  merge_node_value-Gives c n v valid inside = elim (Option-cases (BTreeMap.get n c.node_values)) [
    | inl e ↦
        subst (Gives c n v) (ground arith) (set_node_value-Gives c n v valid inside (λ old h. cc))
    | inr (old, e) ↦ elim (Bool-cases (C.value_eq (merge v old) old)) [
      | inl same ↦ subst (Gives c n v) (ground arith) (keep old e same)
      | inr other ↦ subst (Gives c n v) (ground arith) (raise old e)
    ]
  ]
    where
      keep :
          (old : NodeValue)
          → BTreeMap.get n c.node_values ≡ some old
          → C.value_eq (merge v old) old ≡ true
          → Gives c n v (ok c)
      keep old e same = record {
        next = c;
        returns = refl;
        extends = Extends-refl c valid;
        value = old;
        stored = e;
        above = rw (value_eq_sound (merge v old) old same) at (le-merge_left v old);
      }

      raise :
          (old : NodeValue)
          → BTreeMap.get n c.node_values ≡ some old
          → Gives c n v (set_node_value C n (merge v old) c)
      raise old e = Gives-weaken c n v (merge v old) _ (le-merge_left v old) (
          set_node_value-Gives c n (merge v old) valid inside (λ o h.
            let same : old ≡ o = cc in subst (λ z. Le z (merge v old)) same (le-merge_right v old)))
