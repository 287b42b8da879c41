-- ===== src/Examples/Linearize.antt =====
-- The linear form of a loop of two blocks.
use qy.Prelude.{◌≡◌, refl, false, none, some, List, [], ◌∷◌}
use qy.Mir.Node.{Operand, int, object, other, load_const, TerminatorOpcode, Function}
use qy.Lir.Node.{Instruction, load_host, jump, jump_if_false, return}
use qy.Lir.Linearize.{
  instruction, linearize_function, emit_blocks, emit_instructions, lower_instruction,
  emit_terminator, patch_jumps, offset_of, patch_at,
}
use qy.Lir.Linearize.Code.{layout, code_of}
use qy.Lir.Linearize.Returns.{linearize_function-code_of}

abbrev constants : List Operand
constants = object (other 4) ∷ object (other 5) ∷ []

-- Block 7 goes back to itself when the register is false, and to block 3 otherwise.
abbrev loop : Function
loop = record {
  name = 0;
  params = [];
  register_count = 1;
  blocks =
      record {
        id = 7;
        instructions =
            record { opcode = load_const; operands = int 0 ∷ int 1 ∷ []; continuous = false } ∷ [];
        terminator = record {
          opcode = TerminatorOpcode.branch;
          operands = int 0 ∷ int 3 ∷ int 7 ∷ [];
        };
      }
      ∷ record {
        id = 3;
        instructions = [];
        terminator = record { opcode = TerminatorOpcode.return; operands = int 0 ∷ [] };
      }
      ∷ [];
  entry = 7;
  space_id = 0;
  rest_param = none;
}

abbrev linear : List Instruction
linear =
    instruction load_host (int 0 ∷ object (other 5) ∷ [])
    ∷ instruction jump_if_false (int 0 ∷ int 0 ∷ [])
    ∷ instruction jump (int 3 ∷ [])
    ∷ instruction return (int 0 ∷ [])
    ∷ []

lowers : linearize_function constants loop ≡ some linear
unfolding linearize_function emit_blocks emit_instructions lower_instruction emit_terminator
    patch_jumps offset_of patch_at
lowers = refl

-- A constant that the pool does not have is an error.
raises : linearize_function [] loop ≡ none
unfolding linearize_function emit_blocks emit_instructions lower_instruction
raises = refl

linearize_function-code_of_example :
    linearize_function constants loop ≡ code_of constants (layout 0 loop.blocks []) loop.blocks
linearize_function-code_of_example = linearize_function-code_of constants loop
