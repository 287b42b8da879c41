-- ===== src/Lir.antt =====
-- qy/ir/lir and qy/passes/lir: the instructions of the abstract machine and the passes over them.
pub mod Node
pub mod Compact
pub mod Linearize
pub mod Peephole
