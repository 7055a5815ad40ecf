-- ===== src/AbstractDomain/CharacterInclusion.antt =====
-- src/cwe_checker_lib/src/abstract_domain/character_inclusion.rs: which characters a string must
-- and may contain. A `char` is its code point, a string the list of its characters.
pub mod Strings
mod Tests
use fkie_cad_cwe_checker.Prelude.{
  ℕ, Bool, true, false, ◌&&◌, ◌||◌, List, [], ◌∷◌, ◌==◌, if◌then◌else◌,
}
use fkie_cad_cwe_checker.Prelude.Outcome.{Outcome, ok, panic, ◌>>=◌}
use fkie_cad_cwe_checker.Prelude.Key.{nat_ord}
use fkie_cad_cwe_checker.BTreeSet

pub data CharacterSet : Type 0 where
  set_top : CharacterSet
  set_value : List ℕ → CharacterSet

pub unwrap_set : CharacterSet → Outcome (List ℕ)
unwrap_set set_top = panic
unwrap_set (set_value set) = ok set

pub set_is_top : CharacterSet → Bool
set_is_top set_top = true
set_is_top (set_value set) = false

pub set_intersection : CharacterSet → CharacterSet → Outcome CharacterSet
unfolding set_is_top unwrap_set
set_intersection self other = if set_is_top self || set_is_top other then panic else (do
  values ← unwrap_set self
  other_values ← unwrap_set other
  ok (set_value (BTreeSet.intersection values other_values)))

pub set_union : CharacterSet → CharacterSet → Outcome CharacterSet
unfolding set_is_top unwrap_set
set_union self other = if set_is_top self || set_is_top other then ok set_top else (do
  values ← unwrap_set self
  other_values ← unwrap_set other
  ok (set_value (BTreeSet.union values other_values)))

pub data CharacterInclusionDomain : Type 0 where
  domain_top : CharacterInclusionDomain
  domain_value : CharacterSet → CharacterSet → CharacterInclusionDomain

pub unwrap_value : CharacterInclusionDomain → Outcome (CharacterSet × CharacterSet)
unwrap_value domain_top = panic
unwrap_value (domain_value certain possible) = ok (certain, possible)

pub append_string_domain :
    CharacterInclusionDomain → CharacterInclusionDomain → Outcome CharacterInclusionDomain
unfolding set_union
append_string_domain (domain_value self_certain self_possible)
      (domain_value other_certain other_possible) =
    do
      certain ← set_union self_certain other_certain
      possible ← set_union self_possible other_possible
      ok (domain_value certain possible)
append_string_domain (domain_value self_certain self_possible) domain_top =
    ok (domain_value self_certain set_top)
append_string_domain domain_top (domain_value other_certain other_possible) =
    ok (domain_value other_certain set_top)
append_string_domain domain_top domain_top = ok domain_top

-- The digits and the minus sign, as code points.
pub integer_character_set : List ℕ
integer_character_set =
    BTreeSet.from_list (48 ∷ 49 ∷ 50 ∷ 51 ∷ 52 ∷ 53 ∷ 54 ∷ 55 ∷ 56 ∷ 57 ∷ 45 ∷ [])

-- The digits and the characters of `.-ainfeE`.
pub float_character_set : List ℕ
float_character_set = BTreeSet.from_list (
    48 ∷ 49 ∷ 50 ∷ 51 ∷ 52 ∷ 53 ∷ 54 ∷ 55 ∷ 56 ∷ 57 ∷ 46 ∷ 45 ∷ 97 ∷ 105 ∷ 110 ∷ 102 ∷ 101 ∷ 69
    ∷ [])

pub create_integer_domain : CharacterInclusionDomain
unfolding integer_character_set
create_integer_domain = domain_value (set_value []) (set_value integer_character_set)

pub create_float_value_domain : CharacterInclusionDomain
unfolding float_character_set
create_float_value_domain = domain_value (set_value []) (set_value float_character_set)

-- `create_char_domain`, `create_pointer_value_domain` and `create_top_value_domain`.
pub create_top_value_domain : CharacterInclusionDomain
create_top_value_domain = domain_top

pub from_string : List ℕ → CharacterInclusionDomain
from_string string =
    let characters = BTreeSet.from_list string in
    domain_value (set_value characters) (set_value characters)

pub create_empty_string_domain : CharacterInclusionDomain
unfolding from_string
create_empty_string_domain = from_string []

-- The derived equalities.
pub chars_eq : List ℕ → List ℕ → Bool
chars_eq [] [] = true
chars_eq [] (_ ∷ _) = false
chars_eq (_ ∷ _) [] = false
chars_eq (a ∷ s) (b ∷ t) = a == b && chars_eq s t

pub set_eq : CharacterSet → CharacterSet → Bool
unfolding chars_eq
set_eq set_top set_top = true
set_eq set_top (set_value t) = false
set_eq (set_value s) set_top = false
set_eq (set_value s) (set_value t) = chars_eq s t

pub domain_eq : CharacterInclusionDomain → CharacterInclusionDomain → Bool
unfolding set_eq
domain_eq domain_top domain_top = true
domain_eq domain_top (domain_value c p) = false
domain_eq (domain_value c p) domain_top = false
domain_eq (domain_value c p) (domain_value c' p') = set_eq c c' && set_eq p p'

pub is_top : CharacterInclusionDomain → Bool
is_top domain_top = true
is_top (domain_value c p) = false

pub merge : CharacterInclusionDomain → CharacterInclusionDomain → Outcome CharacterInclusionDomain
unfolding is_top domain_eq unwrap_value set_intersection set_union
merge self other =
    if is_top self || is_top other
    then ok domain_top
    else if domain_eq self other
    then ok self
    else (do
      (self_certain, self_possible) ← unwrap_value self
      (other_certain, other_possible) ← unwrap_value other
      certain ← set_intersection self_certain other_certain
      possible ← set_union self_possible other_possible
      ok (domain_value certain possible))
