-- ===== src/Lir/Linearize/Code.antt =====
-- qy/passes/lir/linearize.py: the code of a function by a description in one pass: every block at
-- its offset, every target an offset.
use qy.Prelude.{ℕ, ◌+◌, Option, none, some, List, [], ◌∷◌, ◌++◌, length, ◌>>=◌}
use qy.Mir.Node as Mir
use qy.Mir.Node.{Operand, int, Block, Function}
use qy.Lir.Node.{Opcode, Instruction}
use qy.Lir.Linearize.{lower_instruction, instruction, Offset, block_id, offset_of}

unfoldable pub lower_all : List Operand → List Mir.Instruction → Option (List Instruction)
lower_all values [] = some []
lower_all values (i ∷ is) = do
  l ← lower_instruction values i
  ls ← lower_all values is
  some (l ∷ ls)

-- The instruction index of a target.
abbrev pub target_index : List Offset → Operand → Option Operand
target_index offsets target = do id ← block_id target; o ← offset_of id offsets; some (int o)

abbrev pub exit_code : List Offset → Mir.TerminatorOpcode → List Operand → Option (List Instruction)
exit_code offsets Mir.return ops = some (instruction Opcode.return ops ∷ [])
exit_code offsets Mir.tail_call ops = some (instruction Opcode.tail_call ops ∷ [])
exit_code offsets Mir.raise_effect ops = some (instruction Opcode.raise_effect ops ∷ [])
exit_code offsets Mir.jump (target ∷ []) = do
  t ← target_index offsets target
  some (instruction Opcode.jump (t ∷ []) ∷ [])
exit_code offsets Mir.branch (condition ∷ true_block ∷ false_block ∷ []) = do
  f ← target_index offsets false_block
  t ← target_index offsets true_block
  some (
      instruction Opcode.jump_if_false (condition ∷ f ∷ []) ∷ instruction Opcode.jump (t ∷ []) ∷ [])
exit_code offsets Mir.effect_perform (dst ∷ effect ∷ arg ∷ resume_block ∷ resumable ∷ []) = do
  t ← target_index offsets resume_block
  some (instruction Opcode.effect_perform (dst ∷ effect ∷ arg ∷ t ∷ resumable ∷ []) ∷ [])
exit_code offsets _ ops = none

abbrev pub exit_size : Mir.TerminatorOpcode → ℕ
exit_size Mir.branch = 2
exit_size _ = 1

-- The offsets of the blocks from `n` on, the latest first.
unfoldable pub layout : ℕ → List Block → List Offset → List Offset
layout n [] offsets = offsets
layout n (b ∷ bs) offsets =
    layout (n + (length b.instructions + exit_size b.terminator.opcode)) bs
      (record { block = b.id; offset = n } ∷ offsets)

unfoldable pub code_of : List Operand → List Offset → List Block → Option (List Instruction)
code_of values offsets [] = some []
code_of values offsets (b ∷ bs) = do
  ls ← lower_all values b.instructions
  es ← exit_code offsets b.terminator.opcode b.terminator.operands
  rest ← code_of values offsets bs
  some (ls ++ (es ++ rest))
