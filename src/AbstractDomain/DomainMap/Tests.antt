-- ===== src/AbstractDomain/DomainMap/Tests.antt =====
-- Merges of maps from numbers to access patterns.
use fkie_cad_cwe_checker.Prelude.{ℕ, ◌≡◌, refl, inl, true, false, some, List, [], ◌∷◌}
use fkie_cad_cwe_checker.Prelude.Key.{nat_ord}
use fkie_cad_cwe_checker.BTreeMap
use fkie_cad_cwe_checker.Analysis.AccessPattern
use fkie_cad_cwe_checker.Analysis.AccessPattern.{AccessPattern}
use fkie_cad_cwe_checker.Analysis.AccessPattern.Laws.{Le}
use fkie_cad_cwe_checker.Analysis.AccessPattern.Domain.{
  access_domain, access_domain-IsAbstractDomain, eq,
}
use fkie_cad_cwe_checker.AbstractDomain.{HasTop, merge_with}
use fkie_cad_cwe_checker.AbstractDomain.DomainMap.{
  domain_map_merge, union_merge_map_with, intersect_merge_map_with, merge_top_merge_map_with,
}
use fkie_cad_cwe_checker.AbstractDomain.DomainMap.Lookup.{get-merge_top, merge_top_value}
use fkie_cad_cwe_checker.AbstractDomain.DomainMap.Order.{
  union-IsUpper, intersect-IsUpper, HoldsAbove, Below,
}

abbrev reads : AccessPattern
reads = record { dereferenced = false; read = true; mutably_dereferenced = false }

abbrev writes : AccessPattern
writes = record { dereferenced = false; read = false; mutably_dereferenced = true }

abbrev both : AccessPattern
both = record { dereferenced = false; read = true; mutably_dereferenced = true }

-- Keys 0 and 1, and keys 1 and 2.
abbrev left : List (ℕ × AccessPattern)
left = (0, reads) ∷ (1, reads) ∷ []

abbrev right : List (ℕ × AccessPattern)
right = (1, writes) ∷ (2, writes) ∷ []

abbrev has_top : HasTop AccessPattern
has_top = record {
  top = λ a. record { dereferenced = true; read = true; mutably_dereferenced = true };
}

get-merge_top_example :
    BTreeMap.get 2 (merge_top_merge_map_with access_domain has_top left right)
    ≡ merge_top_value access_domain has_top (BTreeMap.get 2 left) (BTreeMap.get 2 right)
get-merge_top_example = get-merge_top access_domain has_top 2 left right (refl, tt) (refl, tt)

union-IsUpper_example :
    HoldsAbove access_domain-IsAbstractDomain reads 1
      (domain_map_merge access_domain (union_merge_map_with access_domain) left right)
unfolding BTreeMap.get
union-IsUpper_example =
    union-IsUpper access_domain-IsAbstractDomain 1 left right reads (refl, tt) (inl refl)

-- What the intersection leaves under the key 1.
intersect_run :
    BTreeMap.get 1
      (domain_map_merge access_domain (intersect_merge_map_with access_domain) left right)
    ≡ some both
unfolding domain_map_merge intersect_merge_map_with BTreeMap.get BTreeMap.retain merge_with
    AccessPattern.is_top AccessPattern.merge eq
intersect_run = refl

intersect-IsUpper_example :
    Below access_domain-IsAbstractDomain both (BTreeMap.get 1 left)
    × Below access_domain-IsAbstractDomain both (BTreeMap.get 1 right)
intersect-IsUpper_example =
    intersect-IsUpper access_domain-IsAbstractDomain 1 left right both (refl, tt) intersect_run

merge_top_run :
    BTreeMap.get 1
      (domain_map_merge access_domain (merge_top_merge_map_with access_domain has_top) left right)
    ≡ some both
unfolding domain_map_merge merge_top_merge_map_with BTreeMap.get BTreeMap.retain merge_with
    AccessPattern.is_top AccessPattern.merge eq
merge_top_run = refl

top_max :
    (a b : AccessPattern)
    → AccessPattern.is_top (merge_with access_domain a b) ≡ true
    → Le a (record { dereferenced = true; read = true; mutably_dereferenced = true })
top_max a b h = record { derefs = λ e. refl; reads = λ e. refl; writes = λ e. refl }
