-- ===== src/Analysis.antt =====
-- The analyses: src/cwe_checker_lib/src/analysis.
pub mod Fixpoint
pub mod AccessPattern
