-- ===== src/Bytecode.antt =====
-- qy/backend/vm/bytecode.py: programs of the register machine, and their binary format.
pub mod Program
pub mod Binary
