-- ===== src/AbstractDomain/MemRegion/Merging/Entries.antt =====
-- The entries that the merge of two regions stores, in terms of the regions.
use fkie_cad_cwe_checker.Prelude.{
  ℕ, ◌+◌, ◌≤◌, ◌≡◌, sym, ◌∙◌, ◌⊎◌, inl, inr, true, Option, none, some, List, arith, Option-cases,
}
use mathlib.Core.Path.{subst, subst₂}
use fkie_cad_cwe_checker.Prelude.Key.{nat_ord}
use fkie_cad_cwe_checker.BTreeMap
use fkie_cad_cwe_checker.BTreeMap.{IsSorted}
use fkie_cad_cwe_checker.AbstractDomain.{IsAbstractDomain}
use fkie_cad_cwe_checker.AbstractDomain.MemRegion.{ValueDomain}
use fkie_cad_cwe_checker.AbstractDomain.MemRegion.Regions.{Fits, IsValid}
use fkie_cad_cwe_checker.AbstractDomain.MemRegion.Clear.{intersects}
use fkie_cad_cwe_checker.AbstractDomain.MemRegion.Merging.Zip.{
  zip, get-zip, zip-IsSorted, FitsPair, pair_size, FitsPair-ends, pair_size-small,
}
use fkie_cad_cwe_checker.AbstractDomain.MemRegion.Merging.Loop.{Stored}
use fkie_cad_cwe_checker.AbstractDomain.MemRegion.Merging.Above.{
  IsSized, AboveOption, merge_or-above, Approximates,
}

module _ {T : Type 0} (d : ValueDomain T) (laws : IsAbstractDomain d.domain)
    (sized : IsSized d) where
  open laws use {Le}

  module _ (a b : List (ℕ × T)) (valid : IsValid d a) (valid' : IsValid d b) where
    pub zip-fits :
        (k : ℕ) (l r : Option T) → BTreeMap.get k (zip d a b) ≡ some (l, r) → FitsPair d k l r
    zip-fits k l r h =
        let e = sym (get-zip d k a b valid.sorted valid'.sorted) ∙ h in
        elim (Option-cases (BTreeMap.get k a)) [
          | inl f ↦ elim (Option-cases (BTreeMap.get k b)) [
            | inl g ↦ absurd (ground arith)
            | inr (y, g) ↦
                let left : none ≡ l = ground arith in
                let right : some y ≡ r = ground arith in
                subst₂ (FitsPair d k) left right (valid'.fits k y g)
          ]
          | inr (x, f) ↦
              let left : some x ≡ l = ground arith in
              let right : BTreeMap.get k b ≡ r = ground arith in
              elim (Option-cases (BTreeMap.get k b)) [
                | inl g ↦ subst₂ (FitsPair d k) left (sym g ∙ right) (valid.fits k x f)
                | inr (y, g) ↦
                    subst₂ (FitsPair d k) left (sym g ∙ right) (valid.fits k x f, valid'.fits k y g)
              ]
        ]

    abbrev pub Entry : ℕ → T → Type 0
    Entry = Stored d (zip d a b) (zip-IsSorted d a b) zip-fits

    -- An element of either region belongs to an entry that is at least as large.
    entry_of :
        (j : ℕ) (w : T)
        → (BTreeMap.get j a ≡ some w) ⊎ (BTreeMap.get j b ≡ some w)
        → (l : Option T) × (r : Option T) × (BTreeMap.get j (zip d a b) ≡ some (l, r))
          × (d.bytesize w ≤ pair_size d l r)
    entry_of j w (inl h) =
        let e = get-zip d j a b valid.sorted valid'.sorted in
        elim (Option-cases (BTreeMap.get j b)) [
          | inl g ↦ (some w, none, ground arith, omega arith)
          | inr (y, g) ↦ (some w, some y, ground arith, omega arith)
        ]
    entry_of j w (inr h) =
        let e = get-zip d j a b valid.sorted valid'.sorted in
        elim (Option-cases (BTreeMap.get j a)) [
          | inl g ↦ (none, some w, ground arith, omega arith)
          | inr (x, g) ↦ (some x, some w, ground arith, omega arith)
        ]

    alone_in :
        (k : ℕ) (v : T)
        → Entry k v
        → (j : ℕ) (w : T) → (BTreeMap.get j a ≡ some w) ⊎ (BTreeMap.get j b ≡ some w)
        → intersects d k (k + d.bytesize v) j w ≡ true
        → j ≡ k
    alone_in k v entry j w there meets =
        let (l, r, found, size) = entry_of j w there in
        let (own, known, left, right) =
          merge_or-above d laws sized entry.left entry.right v entry.merged in
        ground (arith, entry.before j l r found, entry.after j l r found)

    Entry-left : (k : ℕ) (v : T) (entry : Entry k v) → entry.left ≡ BTreeMap.get k a
    Entry-left k v entry =
        let here = entry.here in
        let e = get-zip d k a b valid.sorted valid'.sorted in
        elim (Option-cases (BTreeMap.get k a)) [
          | inl f ↦ elim (Option-cases (BTreeMap.get k b)) [
            | inl g ↦ absurd (ground arith)
            | inr (y, g) ↦ ground arith
          ]
          | inr (x, f) ↦ ground arith
        ]

    Entry-right : (k : ℕ) (v : T) (entry : Entry k v) → entry.right ≡ BTreeMap.get k b
    Entry-right k v entry =
        let here = entry.here in
        let e = get-zip d k a b valid.sorted valid'.sorted in
        elim (Option-cases (BTreeMap.get k a)) [
          | inl f ↦ elim (Option-cases (BTreeMap.get k b)) [
            | inl g ↦ absurd (ground arith)
            | inr (y, g) ↦ ground arith
          ]
          | inr (x, f) ↦ ground arith
        ]

    pub Entry-Approximates :
        (k : ℕ) (v : T)
        → Entry k v
        → Approximates d laws sized k v a × Approximates d laws sized k v b
    Entry-Approximates k v entry =
        let (size, known, left, right) =
          merge_or-above d laws sized entry.left entry.right v entry.merged in
        (
          record {
            above = subst (AboveOption d laws sized v) (Entry-left k v entry) left;
            alone = λ j w h. alone_in k v entry j w (inl h);
          },
          record {
            above = subst (AboveOption d laws sized v) (Entry-right k v entry) right;
            alone = λ j w h. alone_in k v entry j w (inr h);
          },
        )

    Entry-Fits : (k : ℕ) (v : T) → Entry k v → Fits d k v
    Entry-Fits k v entry =
        let (size, known, left, right) =
          merge_or-above d laws sized entry.left entry.right v entry.merged in
        let fits = zip-fits k entry.left entry.right entry.here in
        let (positive, ends) = FitsPair-ends d k entry.left entry.right fits in
        record {
          has_size = omega arith;
          small = omega (arith, pair_size-small d k entry.left entry.right fits);
          ends = omega arith;
          known = known;
        }

    pub merged-IsValid :
        (out : List (ℕ × T))
        → IsSorted out
        → ((k : ℕ) (v : T) → BTreeMap.get k out ≡ some v → Entry k v)
        → IsValid d out
    merged-IsValid out s all = record {
      sorted = s;
      fits = λ k v h. Entry-Fits k v (all k v h);
      disjoint = λ j k v w h h' lt.
          let entry = all j v h in
          let next = all k w h' in
          let (size, known, left, right) =
            merge_or-above d laws sized entry.left entry.right v entry.merged in
          omega (arith, next.before j entry.left entry.right entry.here lt);
    }
