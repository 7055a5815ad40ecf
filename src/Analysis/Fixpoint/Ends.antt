-- ===== src/Analysis/Fixpoint/Ends.antt =====
-- `compute` of src/cwe_checker_lib/src/analysis/fixpoint.rs, with values that can rise only finitely often.
use fkie_cad_cwe_checker.Prelude.{true}
use fkie_cad_cwe_checker.Analysis.Fixpoint.Visits.{Visits, update_node-Visits, update_edge-Updates}
use fkie_cad_cwe_checker.Analysis.Fixpoint.Loop.{SettledBut, visit-SettledBut, taken, take-IsValid}
use fkie_cad_cwe_checker.BTreeSet.Laws.{contains-last, last-none}
use fkie_cad_cwe_checker.BTreeSet.Bounded.{Within-contains, length-remove}
use fkie_cad_cwe_checker.Analysis.Fixpoint.Fixed.{IsFixpoint, settled-IsFixpoint}
use fkie_cad_cwe_checker.Prelude.{
  ℕ, zero, suc, ◌+◌, ◌≤◌, ◌<◌, ◌≡◌, refl, ◌∙◌, ◌⊎◌, inl, inr, false, Option, some, none, List, [],
  ◌∷◌, arith, ◌==◌, Bool-cases, Option-cases, sym, ap, get_elem?,
}
use fkie_cad_cwe_checker.Prelude.Lists.{get_elem?-some, ◌∈◌, length}
use mathlib.Core.Path.{subst}
use fkie_cad_cwe_checker.Prelude.Outcome.{Outcome, ok, ◌>>=◌}
use fkie_cad_cwe_checker.Prelude.Key.{nat_ord}
use fkie_cad_cwe_checker.BTreeMap
use fkie_cad_cwe_checker.BTreeSet
use fkie_cad_cwe_checker.BTreeMap.Laws.{get-insert}
use fkie_cad_cwe_checker.Analysis.Fixpoint.{
  Context, Computation, set_node_value, merge_node_value, update_edge, update_edges, has_stabilized,
  compute, update_node, take_next_node_from_worklist,
}
use fkie_cad_cwe_checker.Analysis.Fixpoint.Order.{IsDiGraph, IsOrdered, IsValid}

-- A value can rise at most `depth` times.
pub record IsDeep (C : Context) : Type 0 where
  pub depth : C.NodeValue → ℕ
  pub falls :
      (a b : C.NodeValue) → C.value_eq (C.merge a b) b ≡ false → depth (C.merge a b) < depth b

-- The sum of what `f` says of the values of the nodes below `count`.
total : {V : Type 0} → (Option V → ℕ) → ℕ → List (ℕ × V) → ℕ
total f zero m = 0
total f (suc n) m = f (BTreeMap.get n m) + total f n m

module _ {V : Type 0} (f : Option V → ℕ) where
  total-insert_above :
      (count k : ℕ) (v : V) (m : List (ℕ × V))
      → count ≤ k
      → total f count (BTreeMap.insert k v m) ≡ total f count m
  unfolding total
  total-insert_above zero k v m h = refl
  total-insert_above (suc n) k v m h =
      let here : BTreeMap.get n (BTreeMap.insert k v m) ≡ BTreeMap.get n m =
        ground (arith, get-insert k n v m) in
      rw here (omega (arith, total-insert_above n k v m (omega arith)))

  total-insert :
      (count k : ℕ) (v : V) (m : List (ℕ × V))
      → k < count
      → total f count (BTreeMap.insert k v m) + f (BTreeMap.get k m) ≡ total f count m + f (some v)
  unfolding total
  total-insert zero k v m h = absurd (omega arith)
  total-insert (suc n) k v m h = elim (Bool-cases (n == k)) [
    | inl e ↦
        let same : n ≡ k = ground arith in
        let here : BTreeMap.get n (BTreeMap.insert k v m) ≡ some v =
          ground (arith, get-insert k n v m) in
        let at : BTreeMap.get k m ≡ BTreeMap.get n m = ap (λ i. BTreeMap.get i m) (sym same) in
        rw (here, at) (omega (arith, total-insert_above n k v m (omega arith)))
    | inr e ↦
        let here : BTreeMap.get n (BTreeMap.insert k v m) ≡ BTreeMap.get n m =
          ground (arith, get-insert k n v m) in
        rw here (omega (arith, total-insert n k v m (ground arith)))
  ]

module _ (C : Context) (order : IsOrdered C) (deep : IsDeep C) where
  open C use {NodeValue, value_eq, graph, merge, transfer}

  is_missing : Option NodeValue → ℕ
  is_missing none = 1
  is_missing (some v) = 0

  depth_of : Option NodeValue → ℕ
  depth_of none = 0
  depth_of (some v) = deep.depth v

  abbrev missing : Computation C → ℕ
  missing c = total is_missing graph.node_count c.node_values

  abbrev depths : Computation C → ℕ
  depths c = total depth_of graph.node_count c.node_values

  -- Fewer nodes have no value, or as many, and the values can rise less often.
  abbrev Advances : Computation C → Computation C → Type 0
  Advances c c' = (missing c' < missing c) ⊎ ((missing c' ≡ missing c) × (depths c' < depths c))

  -- A return of the same state, or of one with values that have risen.
  abbrev Moves : Computation C → Outcome (Computation C) → Type 0
  Moves c r = (c' : Computation C) × (r ≡ ok c') × ((c' ≡ c) ⊎ Advances c c')

  Advances-insert :
      (c : Computation C) (n : ℕ) (v : NodeValue) (worklist : List ℕ)
      → n < graph.node_count
      → ((old : NodeValue)
          → BTreeMap.get n c.node_values ≡ some old
          → deep.depth v < deep.depth old)
      → Advances c
          (record c { node_values = BTreeMap.insert n v c.node_values; worklist = worklist })
  unfolding is_missing depth_of
  Advances-insert c n v worklist inside less =
      let fewer = total-insert is_missing graph.node_count n v c.node_values inside in
      let lower = total-insert depth_of graph.node_count n v c.node_values inside in
      elim (Option-cases (BTreeMap.get n c.node_values)) [
        | inl e ↦ inl (let none_at = ap is_missing e in omega (arith, fewer, none_at))
        | inr (old, e) ↦
            let at = ap is_missing e in
            let at' = ap depth_of e in
            inr (omega (arith, fewer, at), omega (arith, lower, at', less old e))
      ]

  set_node_value-Advances :
      (c : Computation C) (n : ℕ) (v : NodeValue)
      → IsValid C c
      → n < graph.node_count
      → ((old : NodeValue)
          → BTreeMap.get n c.node_values ≡ some old
          → deep.depth v < deep.depth old)
      → Moves c (set_node_value C n v c)
  unfolding set_node_value
  set_node_value-Advances c n v valid inside less =
      let (p, found) = get_elem?-some c.node_priority_list n (omega (arith, valid.priorities)) in
      (
        record c {
          node_values = BTreeMap.insert n v c.node_values;
          worklist = BTreeSet.insert p c.worklist;
        },
        rw found refl,
        inr (Advances-insert c n v (BTreeSet.insert p c.worklist) inside less),
      )

  merge_node_value-Moves :
      (c : Computation C) (n : ℕ) (v : NodeValue)
      → IsValid C c
      → n < graph.node_count
      → Moves c (merge_node_value C n v c)
  unfolding merge_node_value
  merge_node_value-Moves c n v valid inside = elim (Option-cases (BTreeMap.get n c.node_values)) [
    | inl e ↦
        subst (Moves c) (ground arith) (set_node_value-Advances c n v valid inside (λ old h. cc))
    | inr (old, e) ↦ elim (Bool-cases (value_eq (merge v old) old)) [
      | inl same ↦ subst (Moves c) (ground arith) (c, refl, inl refl)
      | inr differs ↦ subst (Moves c) (ground arith) (
          set_node_value-Advances c n (merge v old) valid inside
            (λ old' h. let at : old ≡ old' = cc in rw (← at) (deep.falls v old differs)))
    ]
  ]

  update_edge-Moves :
      (c : Computation C) (e s t : ℕ)
      → IsDiGraph graph
      → IsValid C c
      → graph.edge_endpoints e ≡ some (s, t)
      → Moves c (update_edge C e c)
  unfolding update_edge
  update_edge-Moves c e s t g valid ends = elim (Option-cases (BTreeMap.get s c.node_values)) [
    | inl a ↦ subst (Moves c) (ground arith) (c, refl, inl refl)
    | inr (x, a) ↦ elim (Option-cases (transfer x e)) [
      | inl b ↦ subst (Moves c) (ground arith) (c, refl, inl refl)
      | inr (y, b) ↦
          subst (Moves c) (ground arith)
            (merge_node_value-Moves c t y valid (g.ends_lt e s t ends).1)
    ]
  ]

  Moves-trans :
      (a b : Computation C) (r : Outcome (Computation C))
      → (b ≡ a) ⊎ Advances a b
      → Moves b r
      → Moves a r
  Moves-trans a b r (inl same) m = subst (λ x. Moves x r) same m
  Moves-trans a b r (inr less) (c, h, inl same) = (c, h, inr (subst (Advances a) (sym same) less))
  Moves-trans a b r (inr less) (c, h, inr less') = (c, h, inr (ground (arith, less, less')))

  update_edges-Moves :
      (c : Computation C) (n : ℕ) (es : List ℕ)
      → IsDiGraph graph
      → IsValid C c
      → ((e : ℕ) → e ∈ es → (t : ℕ) × (graph.edge_endpoints e ≡ some (n, t)))
      → Moves c (update_edges C es c)
  unfolding update_edges
  update_edges-Moves c n [] g valid known = (c, refl, inl refl)
  update_edges-Moves c n (e ∷ es) g valid known =
      let (t, ends) = known e (inl refl) in
      let (b, run, moved) = update_edge-Moves c e n t g valid ends in
      let u = update_edge-Updates C order c e n t g valid ends in
      let returned : ok u.next ≡ ok b = sym u.returns ∙ run in
      let same : u.next ≡ b = cc in
      let b_valid : IsValid C b = subst (IsValid C) same u.extends.valid in
      Moves-trans c b _ moved (
        subst (Moves b) (ap (λ o. o >>= update_edges C es) (sym run))
          (update_edges-Moves b n es g b_valid (λ e' m. known e' (inr m))))

  -- With enough fuel, `compute` returns a valid and settled state with an empty worklist.
  Ends : Computation C → Type 0
  Ends c =
      (fuel : ℕ) × (c' : Computation C) × (compute C fuel c ≡ ok c')
      × IsValid C c'
      × SettledBut C order [] c'
      × (c'.worklist ≡ [])

  -- The states whose measures are at most these.
  abbrev Upto : ℕ → ℕ → ℕ → Type 0
  Upto m d l =
      (c : Computation C)
      → IsValid C c
      → SettledBut C order [] c
      → missing c ≤ m
      → depths c ≤ d
      → length c.worklist ≤ l
      → Ends c

  compute-step :
      (c : Computation C) (p n : ℕ)
      → BTreeSet.last c.worklist ≡ some p
      → get_elem? c.priority_to_node_list p ≡ some n
      → (v : Visits C order
          (taken C order c p)
          (graph.edges n)
          (update_node C n (taken C order c p)))
      → Ends v.next
      → Ends c
  unfolding Ends compute take_next_node_from_worklist
  compute-step c p n e here v (fuel, c', run, valid, settled, empty) =
      (suc fuel, c', ground (arith, v.returns), valid, settled, empty)

  Ends-visit :
      (m d l : ℕ)
      → IsDiGraph graph
      → ((m' d' l' : ℕ) → m' < m → Upto m' d' l')
      → ((d' l' : ℕ) → d' < d → Upto m d' l')
      → ((l' : ℕ) → l' < l → Upto m d l')
      → Upto m d l
  unfolding Ends compute take_next_node_from_worklist update_node
  Ends-visit m d l g fewer lower shorter c valid settled hm hd hl =
      elim (Option-cases (BTreeSet.last c.worklist)) [
        | inl e ↦ (1, c, ground arith, valid, settled, last-none c.worklist e)
        | inr (p, e) ↦
            let waits = contains-last p c.worklist e in
            let inside = Within-contains 0 graph.node_count p c.worklist valid.pending waits in
            let (n, here) = get_elem?-some c.priority_to_node_list p (omega (arith, valid.nodes)) in
            let v =
              update_node-Visits C order (taken C order c p) n g (take-IsValid C order c p valid) in
            let (b, run, moved) =
              update_edges-Moves (taken C order c p) n (graph.edges n) g
                (take-IsValid C order c p valid) (g.edge_exists n) in
            let returned : ok v.next ≡ ok b = sym v.returns ∙ run in
            let same : v.next ≡ b = cc in
            let after : SettledBut C order [] v.next =
              visit-SettledBut C order c [] p n _ g valid here settled v in
            let short = length-remove 0 graph.node_count p c.worklist valid.pending waits in
            compute-step c p n e here v
              (elim (subst (λ x. (x ≡ taken C order c p) ⊎ Advances (taken C order c p) x)
                (sym same) moved) [
                  | inl unchanged ↦
                      let list : length v.next.worklist ≡ length (BTreeSet.remove p c.worklist) =
                        ap (λ x. length x.worklist) unchanged in
                      let left : missing v.next ≡ missing c = ap missing unchanged in
                      let left' : depths v.next ≡ depths c = ap depths unchanged in
                      shorter (length v.next.worklist) (omega (arith, list, short, hl)) v.next
                        v.extends.valid after (omega (arith, left, hm)) (omega (arith, left', hd))
                        (omega arith)
                  | inr (inl less) ↦
                      fewer (missing v.next) (depths v.next) (length v.next.worklist)
                        (omega (arith, less, hm)) v.next v.extends.valid after (omega arith)
                        (omega arith) (omega arith)
                  | inr (inr (as_many, less)) ↦
                      lower (depths v.next) (length v.next.worklist) (omega (arith, less, hd))
                        v.next v.extends.valid after (omega (arith, as_many, hm)) (omega arith)
                        (omega arith)
                ])
      ]

  by_length :
      (m d l : ℕ)
      → IsDiGraph graph
      → ((m' d' l' : ℕ) → m' < m → Upto m' d' l')
      → ((d' l' : ℕ) → d' < d → Upto m d' l')
      → Upto m d l
  by_length m d zero g fewer lower =
      Ends-visit m d zero g fewer lower (λ l' h. absurd (omega arith))
  by_length m d (suc l) g fewer lower =
      Ends-visit m d (suc l) g fewer lower
        (λ l' h c v s hm hd hl. by_length m d l g fewer lower c v s hm hd (omega arith))

  by_depth :
      (m d : ℕ) → IsDiGraph graph → ((m' d' l' : ℕ) → m' < m → Upto m' d' l') → (l : ℕ) → Upto m d l
  by_depth m zero g fewer l = by_length m zero l g fewer (λ d' l' h. absurd (omega arith))
  by_depth m (suc d) g fewer l =
      by_length m (suc d) l g fewer
        (λ d' l' h c v s hm hd hl. by_depth m d g fewer l' c v s hm (omega arith) hl)

  by_missing : (m : ℕ) → IsDiGraph graph → (d l : ℕ) → Upto m d l
  by_missing zero g d l = by_depth zero d g (λ m' d' l' h. absurd (omega arith)) l
  by_missing (suc m) g d l =
      by_depth (suc m) d g
        (λ m' d' l' h c v s hm hd hl. by_missing m g d' l' c v s (omega arith) hd hl) l

  -- On petgraph's graphs, for an ordered domain in which each value can rise only finitely often, and
  -- from a valid and settled state: with enough fuel, `compute` ends with no panic in a state with an
  -- empty worklist, and that state is a fixpoint.
  pub compute-Ends :
      (c : Computation C)
      → IsDiGraph graph
      → IsValid C c
      → SettledBut C order [] c
      → (fuel : ℕ) × (c' : Computation C) × (compute C fuel c ≡ ok c')
        × (has_stabilized C c' ≡ true)
        × IsFixpoint C order c'
  unfolding Ends has_stabilized
  compute-Ends c g valid settled =
      let (fuel, c', run, valid', settled', empty) =
        by_missing (missing c) g (depths c) (length c.worklist) c valid settled (omega arith)
          (omega arith) (omega arith) in
      (fuel, c', run, ground (arith, empty), settled-IsFixpoint C order c' g valid' settled' empty)
