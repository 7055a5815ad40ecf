-- ===== src/AbstractDomain/CharacterInclusion/Tests.antt =====
-- The strings "ab" and "bc", as code points.
use fkie_cad_cwe_checker.AbstractDomain.CharacterInclusion.{set_is_top}
use fkie_cad_cwe_checker.Prelude.{ℕ, ◌≡◌, refl, ◌⊎◌, List, [], ◌∷◌, ◌++◌}
use fkie_cad_cwe_checker.Prelude.Outcome.{ok}
use fkie_cad_cwe_checker.Prelude.Key.{nat_ord}
use fkie_cad_cwe_checker.BTreeSet
use fkie_cad_cwe_checker.AbstractDomain.CharacterInclusion.{
  CharacterSet, CharacterInclusionDomain, append_string_domain, from_string, merge,
}
use fkie_cad_cwe_checker.AbstractDomain.CharacterInclusion.Strings.{
  Describes, IsProper, from_string-Describes, append_string_domain-Describes, merge-Describes,
}

abbrev ab : List ℕ
ab = 97 ∷ 98 ∷ []

abbrev bc : List ℕ
bc = 98 ∷ 99 ∷ []

described : (s : List ℕ) → Describes (from_string s) s
described s = (from_string-Describes s s).1 (λ c. refl)

append_string_domain-Describes_example :
    (r : CharacterInclusionDomain) × (append_string_domain (from_string ab) (from_string bc) ≡ ok r)
    × Describes r (ab ++ bc)
append_string_domain-Describes_example =
    append_string_domain-Describes (from_string ab) (from_string bc) ab bc (described ab)
      (described bc)

merge-Describes_example :
    (r : CharacterInclusionDomain) × (merge (from_string ab) (from_string bc) ≡ ok r)
    × IsProper r
    × ((s : List ℕ) → Describes (from_string ab) s ⊎ Describes (from_string bc) s → Describes r s)
unfolding from_string set_is_top
merge-Describes_example = merge-Describes (from_string ab) (from_string bc) refl refl

-- The merge is certain of `b` only.
merged :
    merge (from_string ab) (from_string bc)
    ≡ ok (
        CharacterInclusionDomain.domain_value
          (CharacterSet.set_value (98 ∷ []))
          (CharacterSet.set_value (97 ∷ 98 ∷ 99 ∷ [])))
unfolding merge from_string BTreeSet.from_list BTreeSet.insert BTreeSet.union BTreeSet.intersection
    BTreeSet.contains
merged = refl
