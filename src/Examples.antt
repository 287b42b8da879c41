-- ===== src/Examples.antt =====
-- The theorems at concrete inputs, and runs of the model that can be followed in the source.
mod Dce
mod Space
mod Cst
mod Lir
mod Number
mod Verify
mod Bytecode
mod Project
mod Cse
mod Linearize
mod Peephole
