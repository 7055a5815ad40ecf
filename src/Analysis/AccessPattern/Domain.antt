-- ===== src/Analysis/AccessPattern/Domain.antt =====
-- The implementation of the trait of abstract domains by the access patterns.
use fkie_cad_cwe_checker.Prelude.{◌≡◌, Bool, true, not, ◌&&◌, arith, if◌then◌else◌}
use fkie_cad_cwe_checker.Prelude.Key.{nat_ord}
use fkie_cad_cwe_checker.AbstractDomain.{AbstractDomain, IsAbstractDomain}
use fkie_cad_cwe_checker.Analysis.AccessPattern
use fkie_cad_cwe_checker.Analysis.AccessPattern.{AccessPattern}
use fkie_cad_cwe_checker.Analysis.AccessPattern.Laws.{Le}

flag_eq : Bool → Bool → Bool
flag_eq a b = if a then b else not b

-- The derived `==`.
unfoldable pub eq : AccessPattern → AccessPattern → Bool
unfolding flag_eq
eq a b =
    flag_eq a.dereferenced b.dereferenced
    && flag_eq a.read b.read
    && flag_eq a.mutably_dereferenced b.mutably_dereferenced

abbrev pub access_domain : AbstractDomain AccessPattern
access_domain = record { eq = eq; merge = AccessPattern.merge; is_top = AccessPattern.is_top }

pub Le-refl : (a : AccessPattern) → Le a a
Le-refl a = record { derefs = λ e. e; reads = λ e. e; writes = λ e. e }

pub Le-trans : (a b c : AccessPattern) → Le a b → Le b c → Le a c
Le-trans a b c h k = record {
  derefs = λ e. k.derefs (h.derefs e);
  reads = λ e. k.reads (h.reads e);
  writes = λ e. k.writes (h.writes e);
}

pub eq_sound : (a b : AccessPattern) → eq a b ≡ true → a ≡ b
unfolding eq
eq_sound a b h = ground arith

pub le_left : (a b : AccessPattern) → Le a (AccessPattern.merge a b)
unfolding AccessPattern.merge
le_left a b = record {
  derefs = λ e. ground arith;
  reads = λ e. ground arith;
  writes = λ e. ground arith;
}

pub le_right : (a b : AccessPattern) → Le b (AccessPattern.merge a b)
unfolding AccessPattern.merge
le_right a b = record {
  derefs = λ e. ground arith;
  reads = λ e. ground arith;
  writes = λ e. ground arith;
}

-- Access patterns meet what the traits promise.
abbrev pub access_domain-IsAbstractDomain : IsAbstractDomain access_domain
access_domain-IsAbstractDomain = record {
  eq_sound = eq_sound;
  Le = Le;
  le_refl = Le-refl;
  le-merge_left = le_left;
  le-merge_right = le_right;
}
