-- ===== src/Mir/Dce.antt =====
-- qy/passes/optimize/dce.py: the pass removes, again and again, each instruction without side
-- effects whose register no instruction and no terminator of the function reads. `none` is a
-- Python exception: an operand that the code takes without a test is missing.
pub mod Cover
pub mod CoverTerminator
pub mod Sweep
pub mod Preserves
pub mod Fixpoint
use qy.Prelude.{
  ℕ, zero, suc, ◌+◌, ◌≡◌, refl, sym, Bool, true, false, not, ◌&&◌, ◌||◌, Option, none, some, List,
  [], ◌∷◌, ◌++◌, length, get_elem?, filterb, any, ◌>>=◌, if◌then◌else◌,
}
use qy.Prelude.Members.{elem, some_inj}
use qy.Mir.Node.{
  Operand, int, boolean, bit, tuple, Opcode, append_result, all_gather, apply, build_tuple,
  cache_eval, call, defeffect, define_module, define_once, effect_handle_begin, effect_handle_end,
  effect_resume, enter_scope, exit_scope, from_import, load_const, load_host, load_env,
  make_function, make_macro, move, parallel_gather, race_first, runtime_eval, store_local,
  TerminatorOpcode, branch, effect_perform, jump, raise_effect, return, tail_call, Instruction,
  Terminator, Block, Function,
}
use qy.Mir.Operands.{item_ints}

-- _SIDE_EFFECT_FREE
abbrev pub side_effect_free : Opcode → Bool
side_effect_free load_const = true
side_effect_free load_host = true
side_effect_free load_env = true
side_effect_free move = true
side_effect_free make_function = true
side_effect_free make_macro = true
side_effect_free build_tuple = true
side_effect_free _ = false

-- _add_reg: the registers that one operand adds to `used`.
abbrev pub add_reg : Operand → List ℕ
add_reg (int n) = n ∷ []
add_reg (boolean b) = bit b ∷ []
add_reg _ = []

abbrev pub add_regs : List Operand → List ℕ
add_regs [] = []
add_regs (o ∷ ops) = add_reg o ++ add_regs ops

abbrev pub add_tuple : Operand → List ℕ
add_tuple (tuple items) = item_ints items
add_tuple _ = []

-- operands[i], an IndexError out of range.
abbrev pub reg_at : ℕ → List Operand → Option (List ℕ)
reg_at i ops = do o ← get_elem? ops i; some (add_reg o)

abbrev pub rest : List Operand → List Operand
rest [] = []
rest (_ ∷ ops) = ops

-- _, op_reg, arg_regs = operands
abbrev pub call_uses : List Operand → Option (List ℕ)
call_uses (_ ∷ op_reg ∷ arg_regs ∷ []) = some (add_reg op_reg ++ add_tuple arg_regs)
call_uses _ = none

-- fn_reg, arg_regs = operands
abbrev pub tail_call_uses : List Operand → Option (List ℕ)
tail_call_uses (fn_reg ∷ arg_regs ∷ []) = some (add_reg fn_reg ++ add_tuple arg_regs)
tail_call_uses _ = none

abbrev pub opcode_uses : Opcode → List Operand → Option (List ℕ)
opcode_uses load_const ops = some []
opcode_uses load_host ops = some []
opcode_uses load_env ops = some []
opcode_uses move ops = reg_at 1 ops
opcode_uses make_function ops = some []
opcode_uses make_macro ops = some []
opcode_uses call ops = call_uses ops
opcode_uses apply ops = some (add_regs (rest ops))
opcode_uses define_once ops = reg_at 1 ops
opcode_uses store_local ops = reg_at 1 ops
opcode_uses build_tuple ops = some (add_regs (rest ops))
opcode_uses effect_handle_begin ops = some []
opcode_uses effect_handle_end ops = some []
opcode_uses effect_resume ops = some (add_regs (rest ops))
opcode_uses runtime_eval ops = some (add_regs (rest ops))
opcode_uses cache_eval ops = some []
opcode_uses append_result ops = reg_at 0 ops
opcode_uses parallel_gather ops = some []
opcode_uses all_gather ops = some []
opcode_uses race_first ops = some []
opcode_uses define_module ops = some []
opcode_uses from_import ops = some []
opcode_uses _ ops = some (add_regs ops)

unfoldable pub instruction_uses : Instruction → Option (List ℕ)
instruction_uses i = opcode_uses i.opcode i.operands

-- operands[2], if there are three operands.
abbrev pub perform_uses : List Operand → List ℕ
perform_uses (_ ∷ _ ∷ arg_reg ∷ _) = add_reg arg_reg
perform_uses _ = []

abbrev pub terminator_opcode_uses : TerminatorOpcode → List Operand → Option (List ℕ)
terminator_opcode_uses return ops = reg_at 0 ops
terminator_opcode_uses tail_call ops = tail_call_uses ops
terminator_opcode_uses branch ops = reg_at 0 ops
terminator_opcode_uses raise_effect ops = reg_at 1 ops
terminator_opcode_uses effect_perform ops = some (perform_uses ops)
terminator_opcode_uses jump ops = some []

unfoldable pub terminator_uses : Terminator → Option (List ℕ)
terminator_uses t = terminator_opcode_uses t.opcode t.operands

unfoldable pub instructions_uses : List Instruction → Option (List ℕ)
instructions_uses [] = some []
instructions_uses (i ∷ is) = do
  used ← instruction_uses i
  more ← instructions_uses is
  some (used ++ more)

unfoldable pub block_uses : Block → Option (List ℕ)
block_uses b = do
  used ← instructions_uses b.instructions
  more ← terminator_uses b.terminator
  some (used ++ more)

-- _collect_used_registers
unfoldable pub collect_used_registers : List Block → Option (List ℕ)
collect_used_registers [] = some []
collect_used_registers (b ∷ bs) = do
  used ← block_uses b
  more ← collect_used_registers bs
  some (used ++ more)

abbrev unused_dest : List Operand → List ℕ → Bool
unused_dest (int dest ∷ _) used = not (elem dest used)
unused_dest (boolean dest ∷ _) used = not (elem (bit dest) used)
unused_dest _ used = false

unfoldable pub is_dead : List ℕ → Instruction → Bool
is_dead used i = side_effect_free i.opcode && unused_dest i.operands used

unfoldable pub sweep_block : List ℕ → Block → Block
sweep_block used b = record b { instructions = filterb (λ i. not (is_dead used i)) b.instructions }

-- One round of the loop over the blocks, with its `used`.
unfoldable pub sweep : List ℕ → List Block → List Block
sweep used [] = []
sweep used (b ∷ bs) = sweep_block used b ∷ sweep used bs

-- The `changed` of a round.
unfoldable pub finds_dead : List ℕ → List Block → Bool
finds_dead used bs = any (λ b. any (is_dead used) b.instructions) bs

-- The result of the loop: `exception`, the final blocks, or the fuel ran out.
pub data Outcome : Type 0 where
  exception out_of_fuel : Outcome
  done : List Block → Outcome

-- `while changed`. Each round spends one unit of fuel.
unfoldable pub eliminate_blocks : ℕ → List Block → Outcome
eliminate_blocks zero bs = out_of_fuel
eliminate_blocks (suc fuel) bs = elim (collect_used_registers bs) [
  | none ↦ exception
  | some used ↦
      let again = eliminate_blocks fuel (sweep used bs) in
      if finds_dead used bs then again else done (sweep used bs)
]

unfoldable pub instruction_count : List Block → ℕ
instruction_count [] = 0
instruction_count (b ∷ bs) = length b.instructions + instruction_count bs

-- Every round but the last removes an instruction, so this fuel is enough.
abbrev pub enough_fuel : List Block → ℕ
enough_fuel bs = suc (instruction_count bs)

abbrev pub with_blocks : Function → Outcome → Option Function
with_blocks f (done bs) = some (record f { blocks = bs })
with_blocks f _ = none

unfoldable pub eliminate_dead : Function → Option Function
eliminate_dead f = with_blocks f (eliminate_blocks (enough_fuel f.blocks) f.blocks)

pub with_blocks_inv :
    (f : Function) (o : Outcome) (f' : Function)
    → with_blocks f o ≡ some f'
    → (bs : List Block) × (o ≡ done bs) × (f' ≡ record f { blocks = bs })
with_blocks_inv f exception f' h = cc
with_blocks_inv f out_of_fuel f' h = cc
with_blocks_inv f (done bs) f' h = (bs, refl, sym (some_inj h))
