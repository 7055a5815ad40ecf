-- ===== src/AbstractDomain/CharacterInclusion/Strings.antt =====
-- The strings that a value of the domain stands for.
use fkie_cad_cwe_checker.Prelude.{◌↔◌, leb, sym}
use fkie_cad_cwe_checker.Prelude.{ap}
use fkie_cad_cwe_checker.Prelude.{
  ℕ, ◌≡◌, refl, Bool, true, false, ◌&&◌, ◌||◌, ◌⊎◌, inl, inr, List, [], ◌∷◌, ◌++◌, ◌==◌, arith,
  Bool-cases, ==_iff,
}
use mathlib.Core.Path.{subst}
use fkie_cad_cwe_checker.Prelude.Outcome.{ok}
use fkie_cad_cwe_checker.Prelude.Key.{nat_ord}
use fkie_cad_cwe_checker.BTreeSet
use fkie_cad_cwe_checker.BTreeSet.Laws.{contains-insert, contains-union, contains-intersection}
use fkie_cad_cwe_checker.AbstractDomain.CharacterInclusion.{
  CharacterSet, CharacterInclusionDomain, set_is_top, unwrap_set, set_intersection, set_union,
  append_string_domain, integer_character_set, create_integer_domain, from_string, chars_eq, set_eq,
  domain_eq, is_top, merge,
}

-- A character of the set; `Top` has them all.
abbrev pub in_set : ℕ → CharacterSet → Bool
in_set c CharacterSet.set_top = true
in_set c (CharacterSet.set_value s) = BTreeSet.contains c s

-- The string has all characters that it must have, and no others than it may have. The certain
-- characters are never all characters.
pub record Sets (certain possible : CharacterSet) (string : List ℕ) : Type 0 where
  pub proper : set_is_top certain ≡ false
  pub must : (c : ℕ) → in_set c certain ≡ true → BTreeSet.contains c string ≡ true
  pub may : (c : ℕ) → BTreeSet.contains c string ≡ true → in_set c possible ≡ true

abbrev pub Describes : CharacterInclusionDomain → List ℕ → Type 0
Describes CharacterInclusionDomain.domain_top string = Unit
Describes (CharacterInclusionDomain.domain_value certain possible) string =
    Sets certain possible string

contains-from_list :
    (c : ℕ) (s : List ℕ) → BTreeSet.contains c (BTreeSet.from_list s) ≡ BTreeSet.contains c s
unfolding BTreeSet.from_list BTreeSet.contains
contains-from_list c [] = refl
contains-from_list c (x ∷ s) =
    ground (arith, contains-insert x c (BTreeSet.from_list s), contains-from_list c s)

contains-append :
    (c : ℕ) (s t : List ℕ)
    → BTreeSet.contains c (s ++ t) ≡ (BTreeSet.contains c s || BTreeSet.contains c t)
unfolding BTreeSet.contains
contains-append c [] t = refl
contains-append c (x ∷ s) t = ground (arith, contains-append c s t)

-- Of all strings exactly those with the same characters are described by the domain of a string.
pub from_string-Describes :
    (string other : List ℕ)
    → Describes (from_string string) other
      ↔ ((c : ℕ) → BTreeSet.contains c other ≡ BTreeSet.contains c string)
unfolding from_string set_is_top
from_string-Describes string other = (
  λ d c. ground (arith, d.must c, d.may c, contains-from_list c string),
  λ same. record {
    proper = refl;
    must = λ c h. ground (arith, same c, contains-from_list c string);
    may = λ c h. ground (arith, same c, contains-from_list c string);
  },
)

-- What a union or an intersection of sets has.
in-set_union :
    (s t : CharacterSet)
    → (u : CharacterSet) × (set_union s t ≡ ok u)
      × ((c : ℕ) → in_set c u ≡ (in_set c s || in_set c t))
      × (set_is_top u ≡ (set_is_top s || set_is_top t))
unfolding set_union set_is_top unwrap_set
in-set_union CharacterSet.set_top t = (CharacterSet.set_top, refl, λ c. refl, refl)
in-set_union (CharacterSet.set_value s) CharacterSet.set_top =
    (CharacterSet.set_top, refl, λ c. ground arith, refl)
in-set_union (CharacterSet.set_value s) (CharacterSet.set_value t) =
    (CharacterSet.set_value (BTreeSet.union s t), refl, λ c. contains-union c s t, refl)

in-set_intersection :
    (s t : CharacterSet)
    → set_is_top s ≡ false
    → set_is_top t ≡ false
    → (u : CharacterSet) × (set_intersection s t ≡ ok u)
      × ((c : ℕ) → in_set c u ≡ (in_set c s && in_set c t))
      × (set_is_top u ≡ false)
unfolding set_intersection set_is_top unwrap_set
in-set_intersection CharacterSet.set_top t h k = absurd (ground arith)
in-set_intersection (CharacterSet.set_value s) CharacterSet.set_top h k = absurd (ground arith)
in-set_intersection (CharacterSet.set_value s) (CharacterSet.set_value t) h k = (
  CharacterSet.set_value (BTreeSet.intersection s t),
  refl,
  λ c. contains-intersection c s t,
  refl,
)

-- Appending does not panic, and the result describes every string of the one domain followed by one
-- of the other.
pub append_string_domain-Describes :
    (a b : CharacterInclusionDomain) (s t : List ℕ)
    → Describes a s
    → Describes b t
    → (r : CharacterInclusionDomain) × (append_string_domain a b ≡ ok r) × Describes r (s ++ t)
unfolding append_string_domain
append_string_domain-Describes CharacterInclusionDomain.domain_top
      CharacterInclusionDomain.domain_top s t d e =
    (CharacterInclusionDomain.domain_top, refl, tt)
append_string_domain-Describes CharacterInclusionDomain.domain_top
      (CharacterInclusionDomain.domain_value c p) s t d e =
    (
      CharacterInclusionDomain.domain_value c CharacterSet.set_top,
      refl,
      record {
        proper = e.proper;
        must = λ x h. ground (arith, e.must x h, contains-append x s t);
        may = λ x h. refl;
      },
    )
append_string_domain-Describes (CharacterInclusionDomain.domain_value c p)
      CharacterInclusionDomain.domain_top s t d e =
    (
      CharacterInclusionDomain.domain_value c CharacterSet.set_top,
      refl,
      record {
        proper = d.proper;
        must = λ x h. ground (arith, d.must x h, contains-append x s t);
        may = λ x h. refl;
      },
    )
append_string_domain-Describes (CharacterInclusionDomain.domain_value c p)
      (CharacterInclusionDomain.domain_value c' p') s t d e =
    let (u, returns, members, top) = in-set_union c c' in
    let (v, returns', members', top') = in-set_union p p' in
    (
      CharacterInclusionDomain.domain_value u v,
      ground (arith, returns, returns'),
      record {
        proper = ground (arith, top, d.proper, e.proper);
        must = λ x h. ground (arith, members x, d.must x, e.must x, contains-append x s t);
        may = λ x h. ground (arith, members' x, d.may x, e.may x, contains-append x s t);
      },
    )

-- The certain characters are not all characters.
abbrev pub IsProper : CharacterInclusionDomain → Type 0
IsProper CharacterInclusionDomain.domain_top = Unit
IsProper (CharacterInclusionDomain.domain_value certain possible) = set_is_top certain ≡ false

chars_eq_sound : (s t : List ℕ) → chars_eq s t ≡ true → s ≡ t
unfolding chars_eq
chars_eq_sound [] [] h = refl
chars_eq_sound [] (b ∷ t) h = ground arith
chars_eq_sound (a ∷ s) [] h = ground arith
chars_eq_sound (a ∷ s) (b ∷ t) h = ground (arith, ==_iff a b, chars_eq_sound s t)

set_eq_sound : (s t : CharacterSet) → set_eq s t ≡ true → s ≡ t
unfolding set_eq
set_eq_sound CharacterSet.set_top CharacterSet.set_top h = refl
set_eq_sound CharacterSet.set_top (CharacterSet.set_value t) h = ground arith
set_eq_sound (CharacterSet.set_value s) CharacterSet.set_top h = ground arith
set_eq_sound (CharacterSet.set_value s) (CharacterSet.set_value t) h =
    ap CharacterSet.set_value (chars_eq_sound s t h)

domain_eq_sound : (a b : CharacterInclusionDomain) → domain_eq a b ≡ true → a ≡ b
unfolding domain_eq
domain_eq_sound CharacterInclusionDomain.domain_top CharacterInclusionDomain.domain_top h = refl
domain_eq_sound CharacterInclusionDomain.domain_top (CharacterInclusionDomain.domain_value c p) h =
    ground arith
domain_eq_sound (CharacterInclusionDomain.domain_value c p) CharacterInclusionDomain.domain_top h =
    ground arith
domain_eq_sound (CharacterInclusionDomain.domain_value c p)
      (CharacterInclusionDomain.domain_value c' p') h =
    ground (arith, set_eq_sound c c', set_eq_sound p p')

-- The merge of two domains whose certain characters are not all characters does not panic, and
-- describes all strings that one of the domains describes.
pub merge-Describes :
    (a b : CharacterInclusionDomain)
    → IsProper a
    → IsProper b
    → (r : CharacterInclusionDomain) × (merge a b ≡ ok r)
      × IsProper r
      × ((s : List ℕ) → Describes a s ⊎ Describes b s → Describes r s)
unfolding merge is_top
merge-Describes CharacterInclusionDomain.domain_top b h k =
    (CharacterInclusionDomain.domain_top, refl, tt, λ s d. tt)
merge-Describes (CharacterInclusionDomain.domain_value c p) CharacterInclusionDomain.domain_top h
      k =
    (CharacterInclusionDomain.domain_top, refl, tt, λ s d. tt)
merge-Describes (CharacterInclusionDomain.domain_value c p)
      (CharacterInclusionDomain.domain_value c' p') h k =
    elim (Bool-cases (
      domain_eq (CharacterInclusionDomain.domain_value c p)
        (CharacterInclusionDomain.domain_value c' p'))) [
          | inl same ↦ (
            CharacterInclusionDomain.domain_value c p,
            ground arith,
            h,
            λ s d. elim d [
              | inl one ↦ one
              | inr other ↦
                  subst (λ x. Describes x s)
                    (sym (
                      domain_eq_sound (CharacterInclusionDomain.domain_value c p)
                        (CharacterInclusionDomain.domain_value c' p') same))
                    other
            ],
          )
          | inr differ ↦
              let (u, returns, members, proper) = in-set_intersection c c' h k in
              let (v, returns', members', top') = in-set_union p p' in
              (
                CharacterInclusionDomain.domain_value u v,
                ground (arith, returns, returns'),
                proper,
                λ s d. elim d [
                  | inl one ↦ record {
                    proper = proper;
                    must = λ x h. ground (arith, members x, one.must x);
                    may = λ x h. ground (arith, members' x, one.may x);
                  }
                  | inr other ↦ record {
                    proper = proper;
                    must = λ x h. ground (arith, members x, other.must x);
                    may = λ x h. ground (arith, members' x, other.may x);
                  }
                ],
              )
        ]

-- The integer domain describes exactly the strings of digits and minus signs.
pub create_integer_domain-Describes :
    (string : List ℕ)
    → Describes create_integer_domain string
      ↔ ((c : ℕ) → BTreeSet.contains c string ≡ true → (leb 48 c && leb c 57 || c == 45) ≡ true)
unfolding create_integer_domain integer_character_set set_is_top BTreeSet.contains
    BTreeSet.from_list BTreeSet.insert
create_integer_domain-Describes string = (
  λ d c h. let inside = d.may c h in ground arith,
  λ h. record {
    proper = refl;
    must = λ c k. absurd (ground arith);
    may = λ c k. let inside = h c k in ground arith;
  },
)
