-- ===== src/AbstractDomain/MemRegion/Merging/Upper.antt =====
-- The merge of two regions is valid and lies above both.
use fkie_cad_cwe_checker.Prelude.{ℕ, ◌≡◌, refl, inl, inr, some, [], arith, Bool-cases, ==_iff}
use mathlib.Core.Path.{subst}
use fkie_cad_cwe_checker.Prelude.Outcome.{ok}
use fkie_cad_cwe_checker.Prelude.Key.{nat_ord}
use fkie_cad_cwe_checker.Prelude.Word64.{i64_min}
use fkie_cad_cwe_checker.BTreeMap
use fkie_cad_cwe_checker.AbstractDomain.{IsAbstractDomain}
use fkie_cad_cwe_checker.AbstractDomain.DomainMap.Order.{map_eq_sound}
use fkie_cad_cwe_checker.AbstractDomain.MemRegion.{ValueDomain, MemRegion}
use fkie_cad_cwe_checker.AbstractDomain.MemRegion.Regions.{IsValid}
use fkie_cad_cwe_checker.AbstractDomain.MemRegion.Merging.{merge_inner, region_eq, merge}
use fkie_cad_cwe_checker.AbstractDomain.MemRegion.Merging.Zip.{zip, zip-IsSorted}
use fkie_cad_cwe_checker.AbstractDomain.MemRegion.Merging.Loop.{merge_loop-Result}
use fkie_cad_cwe_checker.AbstractDomain.MemRegion.Merging.Above.{
  IsSized, Approximates, self-Approximates,
}
use fkie_cad_cwe_checker.AbstractDomain.MemRegion.Merging.Entries.{
  zip-fits, Entry-Approximates, merged-IsValid,
}

module _ {T : Type 0} (d : ValueDomain T) (laws : IsAbstractDomain d.domain)
    (sized : IsSized d) where
  -- The merge of two valid regions of the same address size does not panic. The result is valid, and
  -- each of its values lies above what both regions hold in its bytes.
  pub record IsUpper (self other : MemRegion T) : Type 0 where
    pub out : MemRegion T
    pub returns : merge d self other ≡ ok out
    pub same_size : out.address_bytesize ≡ self.address_bytesize
    pub valid : IsValid d out.values
    pub above :
        (k : ℕ) (v : T)
        → BTreeMap.get k out.values ≡ some v
        → Approximates d laws sized k v self.values × Approximates d laws sized k v other.values

  -- For an ordered domain whose values keep their sizes, the merge of two valid regions of the same
  -- address size does not panic. The result is valid, and each of its values lies above what both
  -- regions hold in its bytes: an element of the same size at the same offset, or no element, which
  -- counts as `Top`.
  pub merge-IsUpper :
      (self other : MemRegion T)
      → self.address_bytesize ≡ other.address_bytesize
      → IsValid d self.values
      → IsValid d other.values
      → IsUpper self other
  unfolding merge merge_inner region_eq BTreeMap.get
  merge-IsUpper self other size valid valid' = elim (Bool-cases (region_eq d self other)) [
    | inl same ↦
        let equal : self.values ≡ other.values =
          map_eq_sound laws self.values other.values (ground arith) in
        record {
          out = self;
          returns = ground arith;
          same_size = refl;
          valid = valid;
          above = λ k v h. (
            self-Approximates d laws sized self.values k v valid h,
            subst (Approximates d laws sized k v) equal
                (self-Approximates d laws sized self.values k v valid h),
          );
        }
    | inr differ ↦
        let zipped = zip d self.values other.values in
        let (out, returns, s, all) =
          merge_loop-Result d zipped (zip-IsSorted d self.values other.values)
            (zip-fits d laws sized self.values other.values valid valid') zipped i64_min []
            (zip-IsSorted d self.values other.values) (λ j l r h. h) (λ j l r h. inl h) tt
            (λ k v h. absurd (ground arith)) in
        record {
          out = record { address_bytesize = self.address_bytesize; values = out };
          returns = ground (arith, returns, ==_iff self.address_bytesize other.address_bytesize);
          same_size = refl;
          valid = merged-IsValid d laws sized self.values other.values valid valid' out s all;
          above = λ k v h.
              Entry-Approximates d laws sized self.values other.values valid valid' k v (all k v h);
        }
  ]
