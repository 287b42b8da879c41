-- ===== src/Lir/Linearize.antt =====
-- qy/passes/lir/linearize.py: the blocks of a function one after the other, with the jumps patched
-- once the offset of every block is known. `none` is a Python exception: operands of another number
-- or class, an index outside the constant pool, or a target that is no block.
pub mod Code
pub mod Patched
pub mod Exits
pub mod Layout
pub mod Returns
use qy.Prelude.{
  ℕ, zero, suc, ◌+◌, ◌-◌, ◌≡◌, Option, none, some, List, [], ◌∷◌, ◌++◌, length, get_elem?, ltb,
  ◌==◌, ◌>>=◌, false, if◌then◌else◌,
}
use qy.Mir.Node as Mir
use qy.Mir.Node.{Operand, int, boolean, bit, object, minus, nothing, Block, Function}
use qy.Lir.Node.{Opcode, Instruction}

-- The MIR and the LIR name an opcode by one string. A LOAD_CONST does not come here.
abbrev pub same_opcode : Mir.Opcode → Opcode
same_opcode Mir.append_result = Opcode.append_result
same_opcode Mir.all_gather = Opcode.all_gather
same_opcode Mir.apply = Opcode.apply
same_opcode Mir.build_tuple = Opcode.build_tuple
same_opcode Mir.cache_eval = Opcode.cache_eval
same_opcode Mir.call = Opcode.call
same_opcode Mir.defeffect = Opcode.defeffect
same_opcode Mir.define_module = Opcode.define_module
same_opcode Mir.define_once = Opcode.define_once
same_opcode Mir.effect_handle_begin = Opcode.effect_handle_begin
same_opcode Mir.effect_handle_end = Opcode.effect_handle_end
same_opcode Mir.effect_resume = Opcode.effect_resume
same_opcode Mir.enter_scope = Opcode.enter_scope
same_opcode Mir.exit_scope = Opcode.exit_scope
same_opcode Mir.from_import = Opcode.from_import
same_opcode Mir.load_const = Opcode.load_host
same_opcode Mir.load_host = Opcode.load_host
same_opcode Mir.load_env = Opcode.load_env
same_opcode Mir.make_function = Opcode.make_function
same_opcode Mir.make_macro = Opcode.make_macro
same_opcode Mir.move = Opcode.move
same_opcode Mir.parallel_gather = Opcode.parallel_gather
same_opcode Mir.race_first = Opcode.race_first
same_opcode Mir.runtime_eval = Opcode.runtime_eval
same_opcode Mir.store_local = Opcode.store_local

-- constants.get(index): a negative index counts from the end.
abbrev pub get_constant : List Operand → Operand → Option Operand
get_constant values (int i) = get_elem? values i
get_constant values (boolean b) = get_elem? values (bit b)
get_constant values (object (minus n)) =
    if ltb n (length values) then get_elem? values (length values - suc n) else none
get_constant values _ = none

abbrev pub instruction : Opcode → List Operand → Instruction
instruction o ops = record { opcode = o; operands = ops; continuous = false }

abbrev pub load_constant : List Operand → List Operand → Option Instruction
load_constant values (dest ∷ index ∷ []) = do
  value ← get_constant values index
  some (instruction Opcode.load_host (dest ∷ value ∷ []))
load_constant values _ = none

abbrev pub lower_opcode : List Operand → Mir.Opcode → List Operand → Option Instruction
lower_opcode values Mir.load_const ops = load_constant values ops
lower_opcode values o ops = some (instruction (same_opcode o) ops)

-- _lower_instruction
unfoldable pub lower_instruction : List Operand → Mir.Instruction → Option Instruction
lower_instruction values i = lower_opcode values i.opcode i.operands

pub record Patch : Type 0 where
  pub instruction_index : ℕ
  pub target_block : ℕ

pub record Offset : Type 0 where
  pub block : ℕ
  pub offset : ℕ

-- `instructions`, `patches` and `block_offsets`, of which the latest entry counts and stands first.
pub record Emitted : Type 0 where
  pub instructions : List Instruction
  pub patches : List Patch
  pub block_offsets : List Offset

abbrev pub append : Instruction → Emitted → Emitted
append i e = record e { instructions = e.instructions ++ (i ∷ []) }

-- patches.append(_Patch(len(instructions), target))
abbrev pub patch_here : ℕ → Emitted → Emitted
patch_here target e = record e {
  patches =
      e.patches
      ++ (record { instruction_index = length e.instructions; target_block = target } ∷ []);
}

abbrev pub None : Operand
None = object nothing

abbrev pub block_id : Operand → Option ℕ
block_id (int id) = some id
block_id (boolean b) = some (bit b)
block_id _ = none

abbrev pub emit_jump : List Operand → Emitted → Option Emitted
emit_jump (target ∷ []) e = do
  id ← block_id target
  some (append (instruction Opcode.jump (None ∷ [])) (patch_here id e))
emit_jump _ e = none

abbrev pub emit_branch : List Operand → Emitted → Option Emitted
emit_branch (condition ∷ true_block ∷ false_block ∷ []) e = do
  else_id ← block_id false_block
  then_id ← block_id true_block
  some (
      append (instruction Opcode.jump (None ∷ [])) (
        patch_here then_id (
          append (instruction Opcode.jump_if_false (condition ∷ None ∷ []))
            (patch_here else_id e))))
emit_branch _ e = none

abbrev pub emit_perform : List Operand → Emitted → Option Emitted
emit_perform (dst ∷ effect ∷ arg ∷ resume_block ∷ resumable ∷ []) e = do
  id ← block_id resume_block
  some (
      append (instruction Opcode.effect_perform (dst ∷ effect ∷ arg ∷ None ∷ resumable ∷ []))
        (patch_here id e))
emit_perform _ e = none

abbrev pub emit_opcode : Mir.TerminatorOpcode → List Operand → Emitted → Option Emitted
emit_opcode Mir.return ops e = some (append (instruction Opcode.return ops) e)
emit_opcode Mir.tail_call ops e = some (append (instruction Opcode.tail_call ops) e)
emit_opcode Mir.raise_effect ops e = some (append (instruction Opcode.raise_effect ops) e)
emit_opcode Mir.jump ops e = emit_jump ops e
emit_opcode Mir.branch ops e = emit_branch ops e
emit_opcode Mir.effect_perform ops e = emit_perform ops e

-- _emit_terminator
unfoldable pub emit_terminator : Mir.Terminator → Emitted → Option Emitted
emit_terminator t e = emit_opcode t.opcode t.operands e

unfoldable pub emit_instructions : List Operand → List Mir.Instruction → Emitted → Option Emitted
emit_instructions values [] e = some e
emit_instructions values (i ∷ is) e = do
  lowered ← lower_instruction values i
  emit_instructions values is (append lowered e)

abbrev pub begin_block : ℕ → Emitted → Emitted
begin_block id e = record e {
  block_offsets = record { block = id; offset = length e.instructions } ∷ e.block_offsets;
}

unfoldable pub emit_blocks : List Operand → List Block → Emitted → Option Emitted
emit_blocks values [] e = some e
emit_blocks values (b ∷ bs) e = do
  filled ← emit_instructions values b.instructions (begin_block b.id e)
  ended ← emit_terminator b.terminator filled
  emit_blocks values bs ended

unfoldable pub offset_of : ℕ → List Offset → Option ℕ
offset_of id [] = none
offset_of id (o ∷ os) = if o.block == id then some o.offset else offset_of id os

-- (*operands[:-1], target)
abbrev pub replace_last : List Operand → Operand → List Operand
replace_last [] target = target ∷ []
replace_last (_ ∷ []) target = target ∷ []
replace_last (o ∷ p ∷ ops) target = o ∷ replace_last (p ∷ ops) target

-- ops[3] = target; the instruction has five operands.
abbrev pub replace_resume : List Operand → Operand → List Operand
replace_resume (a ∷ b ∷ c ∷ _ ∷ ops) target = a ∷ b ∷ c ∷ target ∷ ops
replace_resume ops target = ops

abbrev pub patched_operands : Opcode → List Operand → Operand → List Operand
patched_operands Opcode.effect_perform ops target = replace_resume ops target
patched_operands _ ops target = replace_last ops target

abbrev pub patch_instruction : ℕ → Instruction → Instruction
patch_instruction target i =
    instruction i.opcode (patched_operands i.opcode i.operands (int target))

unfoldable pub patch_at : ℕ → ℕ → List Instruction → List Instruction
patch_at target index [] = []
patch_at target zero (i ∷ is) = patch_instruction target i ∷ is
patch_at target (suc index) (i ∷ is) = i ∷ patch_at target index is

-- _patch_jumps
unfoldable pub patch_jumps : List Patch → List Offset → List Instruction → Option (List Instruction)
patch_jumps [] offsets is = some is
patch_jumps (p ∷ ps) offsets is = do
  target ← offset_of p.target_block offsets
  patch_jumps ps offsets (patch_at target p.instruction_index is)

-- linearize_function, with the values of the constant pool.
unfoldable pub linearize_function : List Operand → Function → Option (List Instruction)
linearize_function values f = do
  e ← emit_blocks values f.blocks (record { instructions = []; patches = []; block_offsets = [] })
  patch_jumps e.patches e.block_offsets e.instructions
