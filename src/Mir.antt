-- ===== src/Mir.antt =====
-- qy/ir/mir and the passes over it: the instructions and their register tables, the verifier, dead
-- code elimination and common subexpression elimination.
pub mod Node
pub mod Operands
pub mod Dce
pub mod Semantics
pub mod Verify
pub mod Cse
