-- ===== src/Mir/Verify.antt =====
-- qy/ir/mir/__init__.py, verify_mir, and qy/ir/mir/predicates.py.
pub mod Problem
pub mod Schema
pub mod Reach
pub mod Walk
pub mod Registers
pub mod Exits
pub mod DefUse
pub mod Flow
pub mod Defined
pub mod Pairing
pub mod Program
pub mod Accepted
pub mod Stays
pub mod Nested
pub mod Readable
pub mod Tables
pub mod Initial
