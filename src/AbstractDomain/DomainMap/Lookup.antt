-- ===== src/AbstractDomain/DomainMap/Lookup.antt =====
-- What each strategy stores under a key, in terms of the two input maps.
use fkie_cad_cwe_checker.Prelude.{
  ◌≡◌, ◌∙◌, inl, inr, Option, none, some, List, [], ◌∷◌, arith, if◌then◌else◌, Option-cases,
}
use fkie_cad_cwe_checker.Prelude.Key.{Ord, ◌=?◌, nat_ord}
use fkie_cad_cwe_checker.BTreeMap
use fkie_cad_cwe_checker.BTreeMap.Laws.{get-insert, get-retain, get-Above, Above-IsSorted}
use fkie_cad_cwe_checker.BTreeMap.{IsSorted}
use fkie_cad_cwe_checker.AbstractDomain.{AbstractDomain, HasTop, merge_with}
use fkie_cad_cwe_checker.AbstractDomain.DomainMap.{
  union_merge_map_with, intersect_merge_map_with, merge_top_merge_map_with, add_missing,
  merge_entry, unless_top,
}

abbrev pub or_else : {A : Type 0} → Option A → Option A → Option A
or_else none r = r
or_else (some a) r = some a

module _ {V : Type 0} (d : AbstractDomain V) where
  abbrev pub union_value : Option V → Option V → Option V
  union_value none r = r
  union_value (some a) none = some a
  union_value (some a) (some b) = some (merge_with d a b)

  abbrev pub intersect_value : Option V → Option V → Option V
  intersect_value none r = none
  intersect_value (some a) none = none
  intersect_value (some a) (some b) = unless_top d (merge_with d a b)

  -- A value of only one map is merged with `Top`, on the side that the code does it. A key of
  -- both maps that the first loop drops is missing from the map when the second loop runs.
  abbrev pub merge_top_value : HasTop V → Option V → Option V → Option V
  merge_top_value h none none = none
  merge_top_value h none (some b) = unless_top d (merge_with d (h.top b) b)
  merge_top_value h (some a) none = unless_top d (merge_with d a (h.top a))
  merge_top_value h (some a) (some b) =
      or_else (unless_top d (merge_with d a b)) (unless_top d (merge_with d (h.top b) b))

module _ {K V : Type 0} ⦃o : Ord K⦄ (d : AbstractDomain V) where
  get-merge_entry :
      (j k : K) (w : V) (l : List (K × V))
      → BTreeMap.get k (merge_entry d j w l)
        ≡ (if k =? j then union_value d (BTreeMap.get j l) (some w) else BTreeMap.get k l)
  unfolding merge_entry
  get-merge_entry j k w l = get-insert j k _ l ∙ ground arith

  -- The union strategy keeps every key of either map, and merges the values of a key of both.
  pub get-union :
      (k : K) (l m : List (K × V))
      → IsSorted m
      → BTreeMap.get k (union_merge_map_with d l m)
        ≡ union_value d (BTreeMap.get k l) (BTreeMap.get k m)
  unfolding union_merge_map_with BTreeMap.get
  get-union k l [] s = ground arith
  get-union k l ((j, w) ∷ m) s = ground (
    arith,
    o.cmp_eq_iff k j,
    get-union k (merge_entry d j w l) m (Above-IsSorted j m s),
    get-Above j m s,
    get-merge_entry j k w l,
  )

  -- The intersection strategy keeps the keys of both maps whose values do not merge to `Top`.
  pub get-intersect :
      (k : K) (l m : List (K × V))
      → IsSorted l
      → BTreeMap.get k (intersect_merge_map_with d l m)
        ≡ intersect_value d (BTreeMap.get k l) (BTreeMap.get k m)
  unfolding intersect_merge_map_with
  get-intersect k l m s = get-retain k _ l s ∙ ground arith

  get-add_missing :
      (h : HasTop V) (k : K) (l m : List (K × V))
      → IsSorted m
      → BTreeMap.get k (add_missing d h l m) ≡ elim (BTreeMap.get k l) [
        | some a ↦ some a
        | none ↦ merge_top_value d h none (BTreeMap.get k m)
      ]
  unfolding add_missing BTreeMap.get
  get-add_missing h k l [] s = ground arith
  get-add_missing h k l ((j, w) ∷ m) s = elim (Option-cases (BTreeMap.get j l)) [
    | inr (a, e) ↦ rw e (
        get-add_missing h k l m (Above-IsSorted j m s)
        ∙ ground (arith, o.cmp_eq_iff k j, get-Above j m s))
    | inl e ↦ elim (Option-cases (unless_top d (merge_with d (h.top w) w))) [
      | inl drop ↦
          rw (e, drop)
            (get-add_missing h k l m (Above-IsSorted j m s)
              ∙ ground (arith, o.cmp_eq_iff k j, get-Above j m s))
      | inr (v, keep) ↦
          rw (e, keep)
            (get-add_missing h k (BTreeMap.insert j v l) m (Above-IsSorted j m s)
              ∙ ground (arith, o.cmp_eq_iff k j, get-Above j m s, get-insert j k v l))
    ]
  ]

  -- The third strategy merges the values of a key of both maps, merges a value of one map with
  -- `Top`, and drops what becomes `Top`; a value that was dropped by the first loop may come back
  -- from the second map alone.
  pub get-merge_top :
      (h : HasTop V) (k : K) (l m : List (K × V))
      → IsSorted l
      → IsSorted m
      → BTreeMap.get k (merge_top_merge_map_with d h l m)
        ≡ merge_top_value d h (BTreeMap.get k l) (BTreeMap.get k m)
  unfolding merge_top_merge_map_with
  get-merge_top h k l m s t = get-add_missing h k _ m t ∙ rw (get-retain k _ l s) (ground arith)
