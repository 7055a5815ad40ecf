-- ===== src/Analysis/AccessPattern.antt =====
-- src/cwe_checker_lib/src/analysis/function_signature/access_pattern.rs: the access flags of a
-- variable, an abstract domain.
pub mod Laws
pub mod Domain
mod Tests
use fkie_cad_cwe_checker.Prelude.{ℕ, Bool, true, false, ◌&&◌, ◌||◌, List, [], ◌∷◌, if◌then◌else◌}

pub record AccessPattern : Type 0 where
  pub dereferenced : Bool
  pub read : Bool
  pub mutably_dereferenced : Bool

pub new : AccessPattern
new = record { dereferenced = false; read = false; mutably_dereferenced = false }

pub new_unknown_access : AccessPattern
new_unknown_access = record { dereferenced = true; read = true; mutably_dereferenced = true }

-- The `with_` methods and the `set_` methods make the same change.
pub with_read_flag : AccessPattern → AccessPattern
with_read_flag a = record a { read = true }

pub with_dereference_flag : AccessPattern → AccessPattern
with_dereference_flag a = record a { dereferenced = true }

pub with_mutably_dereferenced_flag : AccessPattern → AccessPattern
with_mutably_dereferenced_flag a = record a { mutably_dereferenced = true }

pub set_dereference_flag : AccessPattern → AccessPattern
set_dereference_flag a = record a { dereferenced = true }

pub set_read_flag : AccessPattern → AccessPattern
set_read_flag a = record a { read = true }

pub set_mutably_dereferenced_flag : AccessPattern → AccessPattern
set_mutably_dereferenced_flag a = record a { mutably_dereferenced = true }

pub set_unknown_access_flags : AccessPattern → AccessPattern
set_unknown_access_flags a = record a {
  read = true;
  dereferenced = true;
  mutably_dereferenced = true;
}

pub is_accessed : AccessPattern → Bool
is_accessed a = a.read || a.dereferenced || a.mutably_dereferenced

pub is_dereferenced : AccessPattern → Bool
is_dereferenced a = a.dereferenced || a.mutably_dereferenced

pub is_mutably_dereferenced : AccessPattern → Bool
is_mutably_dereferenced a = a.mutably_dereferenced

unfoldable pub merge : AccessPattern → AccessPattern → AccessPattern
merge a b = record {
  dereferenced = a.dereferenced || b.dereferenced;
  read = a.read || b.read;
  mutably_dereferenced = a.mutably_dereferenced || b.mutably_dereferenced;
}

unfoldable pub is_top : AccessPattern → Bool
is_top a = a.read && a.dereferenced && a.mutably_dereferenced

-- `Display`: three characters.
pub fmt : AccessPattern → List ℕ
fmt a =
    (if a.read then b'r' else b'-')
    ∷ (if a.dereferenced then b'd' else b'-')
    ∷ (if a.mutably_dereferenced then b'w' else b'-')
    ∷ []
