-- ===== src/IntermediateRepresentation.antt =====
-- The intermediate representation: src/cwe_checker_lib/src/intermediate_representation.
pub mod Variable
pub mod Bitvector
pub mod Expression
pub mod Def
pub mod DeadVariableElim
