-- ===== src/AbstractDomain/MemRegion/Merging/Above.antt =====
-- What the values of a merge are, in an ordered domain.
use fkie_cad_cwe_checker.Prelude.{
  ℕ, ◌+◌, ◌≡◌, refl, sym, ◌∙◌, true, false, Option, none, some, List, arith,
}
use mathlib.Core.Path.{subst}
use fkie_cad_cwe_checker.Prelude.Outcome.{ok}
use fkie_cad_cwe_checker.Prelude.Key.{nat_ord}
use fkie_cad_cwe_checker.BTreeMap
use fkie_cad_cwe_checker.AbstractDomain.{IsAbstractDomain}
use fkie_cad_cwe_checker.AbstractDomain.MemRegion.{ValueDomain}
use fkie_cad_cwe_checker.AbstractDomain.MemRegion.Regions.{IsValid}
use fkie_cad_cwe_checker.AbstractDomain.MemRegion.Clear.{intersects}
use fkie_cad_cwe_checker.AbstractDomain.MemRegion.Merging.{merge_or_merge_with_top}
use fkie_cad_cwe_checker.AbstractDomain.MemRegion.Merging.Zip.{pair_size}

-- What a value domain promises on sizes: values of one size merge to that size, and `new_top` has
-- the size that it is asked for.
pub record IsSized {T : Type 0} (d : ValueDomain T) : Type 0 where
  pub size_merge : (a b : T) → d.bytesize a ≡ d.bytesize b → d.bytesize (d.merge a b) ≡ d.bytesize a
  pub size_top : (n : ℕ) → d.bytesize (d.new_top n) ≡ n

module _ {T : Type 0} (d : ValueDomain T) (laws : IsAbstractDomain d.domain)
    (sized : IsSized d) where
  open laws use {Le, le_refl, le-merge_left, le-merge_right}
  open sized use {size_merge, size_top}

  -- What the value that is merged from two elements is: of their common size, not `Top`, and above
  -- both, where a missing element counts as `Top`.
  abbrev pub AboveOption : T → Option T → Type 0
  AboveOption v none = Le (d.new_top (d.bytesize v)) v
  AboveOption v (some x) = (d.bytesize x ≡ d.bytesize v) × Le x v

  pub merge_or-above :
      (l r : Option T) (v : T)
      → merge_or_merge_with_top d l r ≡ ok (some v)
      → (d.bytesize v ≡ pair_size d l r) × (d.is_top v ≡ false) × AboveOption v l × AboveOption v r
  unfolding merge_or_merge_with_top
  merge_or-above none none v h = absurd (ground arith)
  merge_or-above none (some y) v h =
      let e : d.merge y (d.new_top (d.bytesize y)) ≡ v = ground arith in
      let size : d.bytesize v ≡ d.bytesize y =
        ground (arith, size_merge y (d.new_top (d.bytesize y)), size_top (d.bytesize y)) in
      let top : Le (d.new_top (d.bytesize y)) v =
        subst (Le (d.new_top (d.bytesize y))) e (le-merge_right y (d.new_top (d.bytesize y))) in
      (
        size,
        ground arith,
        subst (λ n. Le (d.new_top n) v) (sym size) top,
        (sym size, subst (Le y) e (le-merge_left y (d.new_top (d.bytesize y)))),
      )
  merge_or-above (some x) none v h =
      let e : d.merge x (d.new_top (d.bytesize x)) ≡ v = ground arith in
      let size : d.bytesize v ≡ d.bytesize x =
        ground (arith, size_merge x (d.new_top (d.bytesize x)), size_top (d.bytesize x)) in
      let top : Le (d.new_top (d.bytesize x)) v =
        subst (Le (d.new_top (d.bytesize x))) e (le-merge_right x (d.new_top (d.bytesize x))) in
      (
        size,
        ground arith,
        (sym size, subst (Le x) e (le-merge_left x (d.new_top (d.bytesize x)))),
        subst (λ n. Le (d.new_top n) v) (sym size) top,
      )
  merge_or-above (some x) (some y) v h =
      let e : d.merge x y ≡ v = ground arith in
      let same : d.bytesize x ≡ d.bytesize y = ground arith in
      let size : d.bytesize v ≡ d.bytesize x = ground (arith, size_merge x y) in
      (
        ground arith,
        ground arith,
        (sym size, subst (Le x) e (le-merge_left x y)),
        (sym same ∙ sym size, subst (Le y) e (le-merge_right x y)),
      )

  -- The value at `k` lies above what the region holds in its bytes: either an element of its size
  -- at `k`, or no element at all, which counts as `Top`.
  pub record Approximates (k : ℕ) (v : T) (m : List (ℕ × T)) : Type 0 where
    pub above : AboveOption v (BTreeMap.get k m)
    pub alone :
        (j : ℕ) (w : T)
        → BTreeMap.get j m ≡ some w
        → intersects d k (k + d.bytesize v) j w ≡ true
        → j ≡ k

  pub self-Approximates :
      (m : List (ℕ × T)) (k : ℕ) (v : T)
      → IsValid d m
      → BTreeMap.get k m ≡ some v
      → Approximates k v m
  self-Approximates m k v valid h = record {
    above = subst (AboveOption v) (sym h) (refl, le_refl v);
    alone = λ j w there meets.
        ground (arith, valid.disjoint j k w v there h, valid.disjoint k j v w h there);
  }
