-- ===== src/AbstractDomain/Data/Values.antt =====
-- The concrete values that a data domain stands for, when each identifier has a base address.
use fkie_cad_cwe_checker.Prelude.{◌↔◌, ap}
use fkie_cad_cwe_checker.Prelude.{
  ◌≡◌, refl, sym, ◌∙◌, ◌⊎◌, inl, inr, true, false, Option, none, some, List, [], ◌∷◌, arith,
  Bool-cases, Option-cases,
}
use mathlib.Core.Path.{subst}
use fkie_cad_cwe_checker.Prelude.Key.{Ord, ◌=?◌}
use fkie_cad_cwe_checker.BTreeMap
use fkie_cad_cwe_checker.BTreeMap.{IsSorted}
use fkie_cad_cwe_checker.BTreeMap.Laws.{get-insert, get-remove, get-Above, Above-IsSorted}
use fkie_cad_cwe_checker.AbstractDomain.Data.{
  RegisterDomain, DataDomain, is_nil, get_if_absolute_value, replace_abstract_id, merge_offsets,
  merge_absolute, merge,
}

-- What the offsets stand for: numbers of a machine word with an addition. A merge stands for all
-- numbers of both, and a sum for the sums.
pub record IsRegisterDomain {T : Type 0} (r : RegisterDomain T) (Word : Type 0) : Type 1 where
  pub plus : Word → Word → Word
  pub Contains : T → Word → Type 0
  pub merge_left : (a b : T) (x : Word) → Contains a x → Contains (r.merge a b) x
  pub merge_right : (a b : T) (x : Word) → Contains b x → Contains (r.merge a b) x
  pub add_sound :
      (a b : T) (x y : Word) → Contains a x → Contains b y → Contains (r.add a b) (plus x y)

module _ {T Word : Type 0} (r : RegisterDomain T) (laws : IsRegisterDomain r Word) where
  open laws use {Contains, merge_left, merge_right}

  abbrev pub IsAbsolute : Option T → Word → Type 0
  IsAbsolute none x = ⊥
  IsAbsolute (some v) x = Contains v x

  IsAbsolute-left :
      (a b : Option T) (x : Word) → IsAbsolute a x → IsAbsolute (merge_absolute r a b) x
  unfolding merge_absolute
  IsAbsolute-left none b x h = absurd h
  IsAbsolute-left (some v) none x h = h
  IsAbsolute-left (some v) (some w) x h = merge_left v w x h

  IsAbsolute-right :
      (a b : Option T) (x : Word) → IsAbsolute b x → IsAbsolute (merge_absolute r a b) x
  unfolding merge_absolute
  IsAbsolute-right a none x h = absurd h
  IsAbsolute-right none (some w) x h = h
  IsAbsolute-right (some v) (some w) x h = merge_right v w x h

module _ {T : Type 0} (r : RegisterDomain T) where
  abbrev joined : Option T → Option T → Option T
  joined none b = b
  joined (some a) none = some a
  joined (some a) (some b) = some (r.merge a b)

module _ {Identifier T Word : Type 0} ⦃o : Ord Identifier⦄ (r : RegisterDomain T)
    (laws : IsRegisterDomain r Word) where
  open laws use {plus, Contains, merge_left, merge_right, add_sound}

  -- `x` is the sum of the base address of an identifier and one of its offsets.
  pub record IsOffset (base : Identifier → Word) (m : List (Identifier × T)) (x : Word)
      : Type 0 where
    pub id : Identifier
    pub offset : T
    pub distance : Word
    pub there : BTreeMap.get id m ≡ some offset
    pub within : Contains offset distance
    pub sum : plus (base id) distance ≡ x

  -- The domain stands for the value: it is unknown, absolute, or relative to an identifier.
  abbrev pub StandsFor : (Identifier → Word) → DataDomain Identifier T → Word → Type 0
  StandsFor base a x =
      (a.contains_top_values ≡ true)
      ⊎ (IsAbsolute r laws a.absolute_value x ⊎ IsOffset base a.relative_values x)

  get-merge_offsets :
      (k : Identifier) (l m : List (Identifier × T))
      → IsSorted m
      → BTreeMap.get k (merge_offsets r l m) ≡ joined r (BTreeMap.get k l) (BTreeMap.get k m)
  unfolding merge_offsets BTreeMap.get
  get-merge_offsets k l [] s = ground arith
  get-merge_offsets k l ((j, w) ∷ m) s =
      get-merge_offsets k (BTreeMap.insert j _ l) m (Above-IsSorted j m s)
      ∙ ground (
        arith,
        o.cmp_eq_iff k j,
        get-Above j m s,
        get-insert j k (elim (BTreeMap.get j l) [ some offset ↦ r.merge offset w | none ↦ w ]) l,
      )

  IsOffset-left :
      (base : Identifier → Word) (l m : List (Identifier × T)) (x : Word)
      → IsSorted m
      → IsOffset base l x
      → IsOffset base (merge_offsets r l m) x
  IsOffset-left base l m x s h =
      let found = get-merge_offsets h.id l m s in
      let there = h.there in
      elim (Option-cases (BTreeMap.get h.id m)) [
        | inl a ↦ record {
          id = h.id;
          offset = h.offset;
          distance = h.distance;
          there = ground arith;
          within = h.within;
          sum = h.sum;
        }
        | inr (w, a) ↦ record {
          id = h.id;
          offset = r.merge h.offset w;
          distance = h.distance;
          there = ground arith;
          within = merge_left h.offset w h.distance h.within;
          sum = h.sum;
        }
      ]

  IsOffset-right :
      (base : Identifier → Word) (l m : List (Identifier × T)) (x : Word)
      → IsSorted m
      → IsOffset base m x
      → IsOffset base (merge_offsets r l m) x
  IsOffset-right base l m x s h =
      let found = get-merge_offsets h.id l m s in
      let there = h.there in
      elim (Option-cases (BTreeMap.get h.id l)) [
        | inl a ↦ record {
          id = h.id;
          offset = h.offset;
          distance = h.distance;
          there = ground arith;
          within = h.within;
          sum = h.sum;
        }
        | inr (w, a) ↦ record {
          id = h.id;
          offset = r.merge w h.offset;
          distance = h.distance;
          there = ground arith;
          within = merge_right w h.offset h.distance h.within;
          sum = h.sum;
        }
      ]

  -- A merge stands for every value that one of the two domains stands for.
  pub merge-StandsFor :
      (base : Identifier → Word) (a b : DataDomain Identifier T) (x : Word)
      → IsSorted b.relative_values
      → StandsFor base a x ⊎ StandsFor base b x
      → StandsFor base (merge r a b) x
  unfolding merge
  merge-StandsFor base a b x s (inl (inl top)) = inl (ground arith)
  merge-StandsFor base a b x s (inl (inr (inl abs))) =
      inr (inl (IsAbsolute-left r laws a.absolute_value b.absolute_value x abs))
  merge-StandsFor base a b x s (inl (inr (inr off))) =
      inr (inr (IsOffset-left base a.relative_values b.relative_values x s off))
  merge-StandsFor base a b x s (inr (inl top)) = inl (ground arith)
  merge-StandsFor base a b x s (inr (inr (inl abs))) =
      inr (inl (IsAbsolute-right r laws a.absolute_value b.absolute_value x abs))
  merge-StandsFor base a b x s (inr (inr (inr off))) =
      inr (inr (IsOffset-right base a.relative_values b.relative_values x s off))

  -- Replacing an identifier by a new one that the value does not refer to keeps what the value
  -- stands for, when the adjustment stands for the distance from the new base address to the old
  -- one, and the other base addresses stay.
  pub replace_abstract_id-StandsFor :
      (base base' : Identifier → Word) (old_id new_id : Identifier) (adjustment : T)
      (distance : Word) (a : DataDomain Identifier T) (x : Word)
      → BTreeMap.get new_id a.relative_values ≡ none
      → Contains adjustment distance
      → ((y : Word) → plus (base old_id) y ≡ plus (base' new_id) (plus y distance))
      → ((id : Identifier) → (id =? old_id) ≡ false → base id ≡ base' id)
      → StandsFor base a x
      → StandsFor base' (replace_abstract_id r old_id new_id adjustment a) x
  unfolding replace_abstract_id
  replace_abstract_id-StandsFor base base' old_id new_id adj distance a x fresh within moved same
        d =
      elim (Option-cases (BTreeMap.get old_id a.relative_values)) [
        | inl absent ↦
            let kept : a ≡ replace_abstract_id r old_id new_id adj a = ground arith in
            subst (λ b. StandsFor base' b x) kept
              (elim d [
                | inl top ↦ inl top
                | inr (inl abs) ↦ inr (inl abs)
                | inr (inr off) ↦
                    let there = off.there in
                    inr (
                      inr (record {
                        id = off.id;
                        offset = off.offset;
                        distance = off.distance;
                        there = there;
                        within = off.within;
                        sum =
                            ap (λ b. plus b off.distance)
                              (sym (same off.id (ground (arith, o.cmp_eq_iff off.id old_id))))
                            ∙ off.sum;
                      }))
              ])
        | inr (old_offset, found) ↦
            let replaced : record a {
              relative_values =
                  BTreeMap.insert new_id (r.add old_offset adj)
                    (BTreeMap.remove old_id a.relative_values);
            }
                ≡ replace_abstract_id r old_id new_id adj a =
              ground arith in
            subst (λ b. StandsFor base' b x) replaced
              (elim d [
                | inl top ↦ inl top
                | inr (inl abs) ↦ inr (inl abs)
                | inr (inr off) ↦ inr (inr (moved-IsOffset off old_offset found))
              ])
      ]
    where
      moved-IsOffset :
          IsOffset base a.relative_values x
          → (old_offset : T) → BTreeMap.get old_id a.relative_values ≡ some old_offset
          → IsOffset base'
              (BTreeMap.insert new_id
                (r.add old_offset adj)
                (BTreeMap.remove old_id a.relative_values))
              x
      moved-IsOffset off old_offset found =
          let there = off.there in
          let insert_law = λ (k : Identifier).
            get-insert new_id k (r.add old_offset adj) (BTreeMap.remove old_id a.relative_values) in
          elim (Bool-cases (off.id =? old_id)) [
            | inl old ↦
                let eq : off.id ≡ old_id = ground (arith, o.cmp_eq_iff off.id old_id) in
                let value : off.offset ≡ old_offset = ground arith in
                record {
                  id = new_id;
                  offset = r.add old_offset adj;
                  distance = plus off.distance distance;
                  there = ground (arith, insert_law new_id, o.cmp_eq_iff new_id new_id);
                  within =
                      add_sound old_offset adj off.distance distance
                        (subst (λ v. Contains v off.distance) value off.within) within;
                  sum =
                      sym (moved off.distance)
                      ∙ ap (λ i. plus (base i) off.distance) (sym eq)
                      ∙ off.sum;
                }
            | inr other ↦ record {
              id = off.id;
              offset = off.offset;
              distance = off.distance;
              there = ground (
                arith,
                insert_law off.id,
                get-remove old_id off.id a.relative_values,
                o.cmp_eq_iff off.id new_id,
                there,
              );
              within = off.within;
              sum = ap (λ b. plus b off.distance) (sym (same off.id other)) ∙ off.sum;
            }
          ]

  -- A domain with a single absolute value stands for exactly the words of that value.
  pub get_if_absolute_value-StandsFor :
      (base : Identifier → Word) (a : DataDomain Identifier T) (v : T) (x : Word)
      → get_if_absolute_value a ≡ some v
      → StandsFor base a x ↔ Contains v x
  unfolding get_if_absolute_value BTreeMap.get
  get_if_absolute_value-StandsFor base a v x h =
      let nothing : is_nil a.relative_values ≡ true = ground arith in
      let value : a.absolute_value ≡ some v = ground arith in
      let empty : a.relative_values ≡ [] = ground arith in
      (
        λ d. elim d [
          | inl top ↦ absurd (ground arith)
          | inr (inl abs) ↦ subst (λ m. IsAbsolute r laws m x) value abs
          | inr (inr off) ↦
              let there = off.there in
              let gone : BTreeMap.get off.id a.relative_values ≡ none = rw empty refl in
              absurd (ground arith)
        ],
        λ c. inr (inl (subst (λ m. IsAbsolute r laws m x) (sym value) c)),
      )
