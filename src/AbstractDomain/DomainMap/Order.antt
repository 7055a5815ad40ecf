-- ===== src/AbstractDomain/DomainMap/Order.antt =====
-- Each strategy is sound: the merged map describes all that either input map describes.
use fkie_cad_cwe_checker.Prelude.{
  ◌≡◌, refl, ◌⊎◌, inl, inr, true, Option, none, some, List, [], ◌∷◌, arith, sym, ◌∙◌, ap,
  Bool-cases,
}
use mathlib.Core.Path.{subst, subst₂}
use fkie_cad_cwe_checker.Prelude.Key.{Ord, nat_ord}
use fkie_cad_cwe_checker.BTreeMap
use fkie_cad_cwe_checker.BTreeMap.{IsSorted}
use fkie_cad_cwe_checker.AbstractDomain.{
  AbstractDomain, IsAbstractDomain, HasTop, merge_with, le-merge_with_left, le-merge_with_right,
}
use fkie_cad_cwe_checker.AbstractDomain.DomainMap.{
  union_merge_map_with, intersect_merge_map_with, merge_top_merge_map_with, map_eq,
  domain_map_merge, domain_map_merge_with, MapMergeStrategy,
}
use fkie_cad_cwe_checker.AbstractDomain.DomainMap.Lookup.{
  get-union, get-intersect, get-merge_top, union_value, intersect_value, merge_top_value,
}

module _ {V : Type 0} {d : AbstractDomain V} (laws : IsAbstractDomain d) where
  open laws use {Le, le_refl}

  le_of_eq : (a b : V) → a ≡ b → Le a b
  le_of_eq a b e = rw e (le_refl b)

  left_of_eq : (a b c v : V) → a ≡ v → merge_with d a b ≡ c → Le v c
  left_of_eq a b c v e f = subst₂ Le e f (le-merge_with_left laws a b)

  right_of_eq : (a b c v : V) → b ≡ v → merge_with d a b ≡ c → Le v c
  right_of_eq a b c v e f = subst₂ Le e f (le-merge_with_right laws a b)

  union_value-above :
      (a b : Option V) (v : V)
      → (a ≡ some v) ⊎ (b ≡ some v)
      → (c : V) × (union_value d a b ≡ some c) × Le v c
  union_value-above none none v h = absurd (ground arith)
  union_value-above none (some b) v h = (b, refl, le_of_eq v b (ground arith))
  union_value-above (some a) none v h = (a, refl, le_of_eq v a (ground arith))
  union_value-above (some a) (some b) v (inl e) =
      (merge_with d a b, refl, left_of_eq a b _ v (ground arith) refl)
  union_value-above (some a) (some b) v (inr e) =
      (merge_with d a b, refl, right_of_eq a b _ v (ground arith) refl)

  -- The option holds a value below `c`.
  abbrev pub Below : V → Option V → Type 0
  Below c none = ⊥
  Below c (some a) = Le a c

  Below-self : (x : Option V) (c : V) → x ≡ some c → Below c x
  Below-self none c e = absurd (ground arith)
  Below-self (some a) c e = le_of_eq a c (ground arith)

  intersect_value-Below :
      (a b : Option V) (c : V) → intersect_value d a b ≡ some c → Below c a × Below c b
  intersect_value-Below none b c h = absurd (ground arith)
  intersect_value-Below (some a) none c h = absurd (ground arith)
  intersect_value-Below (some a) (some b) c h =
      let e : merge_with d a b ≡ c = ground arith in
      (left_of_eq a b c a refl e, right_of_eq a b c b refl e)

  module _ (h : HasTop V) where
    -- An absent value stands for `Top`, of the family of the other map's value.
    abbrev pub BelowOrTop : V → Option V → Option V → Type 0
    BelowOrTop c none none = Unit
    BelowOrTop c none (some b) = Le (h.top b) c
    BelowOrTop c (some a) other = Le a c

    BelowOrTop-self : (x : Option V) (c : V) → x ≡ some c → BelowOrTop c x x
    BelowOrTop-self none c e = absurd (ground arith)
    BelowOrTop-self (some a) c e = le_of_eq a c (ground arith)

    merge_top_value-BelowOrTop :
        ((a b c : V) → Le a b → Le b c → Le a c)
        → ((a b : V) → d.is_top (merge_with d a b) ≡ true → Le a (h.top b))
        → (a b : Option V) (c : V) → merge_top_value d h a b ≡ some c
        → BelowOrTop c a b × BelowOrTop c b a
    merge_top_value-BelowOrTop trans top_max none none c e = absurd (ground arith)
    merge_top_value-BelowOrTop trans top_max none (some b) c e =
        let m : merge_with d (h.top b) b ≡ c = ground arith in
        (left_of_eq (h.top b) b c (h.top b) refl m, right_of_eq (h.top b) b c b refl m)
    merge_top_value-BelowOrTop trans top_max (some a) none c e =
        let m : merge_with d a (h.top a) ≡ c = ground arith in
        (left_of_eq a (h.top a) c a refl m, right_of_eq a (h.top a) c (h.top a) refl m)
    merge_top_value-BelowOrTop trans top_max (some a) (some b) c e =
        elim (Bool-cases (d.is_top (merge_with d a b))) [
          | inl dropped ↦
              let m : merge_with d (h.top b) b ≡ c = ground arith in
              (
                trans a (h.top b) c (top_max a b dropped)
                    (left_of_eq (h.top b) b c (h.top b) refl m),
                right_of_eq (h.top b) b c b refl m,
              )
          | inr kept ↦
              let m : merge_with d a b ≡ c = ground arith in
              (left_of_eq a b c a refl m, right_of_eq a b c b refl m)
        ]

module _ {K V : Type 0} ⦃o : Ord K⦄ {d : AbstractDomain V} (laws : IsAbstractDomain d) where
  open laws use {Le, eq_sound, le_refl}

  pub map_eq_sound : (l m : List (K × V)) → map_eq d l m ≡ true → l ≡ m
  unfolding map_eq
  map_eq_sound [] [] h = refl
  map_eq_sound [] (e ∷ m) h = ground arith
  map_eq_sound (e ∷ l) [] h = ground arith
  map_eq_sound ((j, v) ∷ l) ((k, w) ∷ m) h =
      ground (arith, o.cmp_eq_iff j k, eq_sound v w, map_eq_sound l m)

  merge-cases :
      (strategy : MapMergeStrategy K V) (l m : List (K × V))
      → (l ≡ m) × (domain_map_merge d strategy l m ≡ l)
        ⊎ (domain_map_merge d strategy l m ≡ strategy l m)
  unfolding domain_map_merge domain_map_merge_with
  merge-cases strategy l m = ground (arith, map_eq_sound l m)

  -- `v` has a value in the map under `k`, or above.
  abbrev pub HoldsAbove : V → K → List (K × V) → Type 0
  HoldsAbove v k m = (c : V) × (BTreeMap.get k m ≡ some c) × Le v c

  abbrev Either : K → List (K × V) → List (K × V) → V → Type 0
  Either k l m v = (BTreeMap.get k l ≡ some v) ⊎ (BTreeMap.get k m ≡ some v)

  -- Absent keys stand for bottom: with the union strategy each value of either map is below the
  -- value of its key in the merged map.
  pub union-IsUpper :
      (k : K) (l m : List (K × V)) (v : V)
      → IsSorted m
      → Either k l m v
      → HoldsAbove v k (domain_map_merge d (union_merge_map_with d) l m)
  union-IsUpper k l m v s h = elim (merge-cases (union_merge_map_with d) l m) [
    | inl (same, e) ↦
        let found : BTreeMap.get k l ≡ some v = ground (arith, ap (BTreeMap.get k) same) in
        rw e (v, found, le_refl v)
    | inr e ↦
        rw (e, get-union d k l m s)
          (union_value-above laws (BTreeMap.get k l) (BTreeMap.get k m) v h)
  ]

  -- Absent keys stand for `Top`: with the intersection strategy a key of the merged map is a key
  -- of both maps, and its value lies above both of their values.
  pub intersect-IsUpper :
      (k : K) (l m : List (K × V)) (c : V)
      → IsSorted l
      → BTreeMap.get k (domain_map_merge d (intersect_merge_map_with d) l m) ≡ some c
      → Below laws c (BTreeMap.get k l) × Below laws c (BTreeMap.get k m)
  intersect-IsUpper k l m c s h = elim (merge-cases (intersect_merge_map_with d) l m) [
    | inl (same, e) ↦
        let found : BTreeMap.get k l ≡ some c = rw e at h in
        let there : BTreeMap.get k m ≡ some c = rw same at found in
        (Below-self laws _ c found, Below-self laws _ c there)
    | inr e ↦
        let found : BTreeMap.get k (intersect_merge_map_with d l m) ≡ some c = rw e at h in
        intersect_value-Below laws _ _ c (sym (get-intersect d k l m s) ∙ found)
  ]

  module _ (h : HasTop V) where
    -- Absent keys stand for `Top`, which need not be the maximum: with the third strategy a value
    -- of the merged map lies above the values of both maps, where an absent one counts as `Top`,
    -- if the order is transitive and what merges to a dropped value lies below `Top`.
    pub merge_top-IsUpper :
        ((a b c : V) → Le a b → Le b c → Le a c)
        → ((a b : V) → d.is_top (merge_with d a b) ≡ true → Le a (h.top b))
        → (k : K) (l m : List (K × V)) (c : V) → IsSorted l
        → IsSorted m
        → BTreeMap.get k (domain_map_merge d (merge_top_merge_map_with d h) l m) ≡ some c
        → BelowOrTop laws h c (BTreeMap.get k l) (BTreeMap.get k m)
          × BelowOrTop laws h c (BTreeMap.get k m) (BTreeMap.get k l)
    merge_top-IsUpper trans top_max k l m c s t e =
        elim (merge-cases (merge_top_merge_map_with d h) l m) [
          | inl (same, f) ↦
              let found : BTreeMap.get k l ≡ some c = rw f at e in
              let x = BelowOrTop-self laws h _ c found in
              subst
                (λ n.
                  BelowOrTop laws h c (BTreeMap.get k l) (BTreeMap.get k n)
                  × BelowOrTop laws h c (BTreeMap.get k n) (BTreeMap.get k l))
                same (x, x)
          | inr f ↦
              let found : BTreeMap.get k (merge_top_merge_map_with d h l m) ≡ some c = rw f at e in
              merge_top_value-BelowOrTop laws h trans top_max _ _ c
                (sym (get-merge_top d h k l m s t) ∙ found)
        ]
