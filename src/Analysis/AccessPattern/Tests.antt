-- ===== src/Analysis/AccessPattern/Tests.antt =====
-- Access patterns at concrete values.
use fkie_cad_cwe_checker.Prelude.{◌≡◌, refl, ◌↔◌, true, false, [], ◌∷◌}
use fkie_cad_cwe_checker.Prelude.Key.{nat_ord}
use fkie_cad_cwe_checker.Analysis.AccessPattern
use fkie_cad_cwe_checker.Analysis.AccessPattern.{AccessPattern}
use fkie_cad_cwe_checker.Analysis.AccessPattern.Laws.{Le, merge-IsLub}

abbrev reads : AccessPattern
reads = record { dereferenced = false; read = true; mutably_dereferenced = false }

abbrev writes : AccessPattern
writes = record { dereferenced = false; read = false; mutably_dereferenced = true }

merge-IsLub_example :
    Le (AccessPattern.merge reads writes) AccessPattern.new_unknown_access
    ↔ Le reads AccessPattern.new_unknown_access × Le writes AccessPattern.new_unknown_access
merge-IsLub_example = merge-IsLub reads writes AccessPattern.new_unknown_access

shown : AccessPattern.fmt (AccessPattern.merge reads writes) ≡ b'r' ∷ b'-' ∷ b'w' ∷ []
unfolding AccessPattern.fmt AccessPattern.merge
shown = refl
