-- ===== src/Examples/Cse.antt =====
-- Common subexpression elimination on a block that loads one constant twice.
use qy.Prelude.{ℕ, ◌≡◌, Bool, false, some, none, List, [], ◌∷◌, ◌==◌}
use qy.Mir.Node.{Operand, int, Opcode, load_const, Instruction, TerminatorOpcode, Function}
use qy.Mir.Cse.{eliminate_cse, eliminate_cse_lem}

-- Constants with one index are equal whatever their register is.
abbrev same_constant : Opcode → List Operand → Opcode → List Operand → Bool
same_constant load_const (_ ∷ int i ∷ []) load_const (_ ∷ int j ∷ []) = i == j
same_constant _ _ _ _ = false

abbrev load : ℕ → ℕ → Instruction
load d i = record { opcode = load_const; operands = int d ∷ int i ∷ []; continuous = false }

abbrev twice : Function
twice = record {
  name = 0;
  params = [];
  register_count = 2;
  blocks =
      record {
        id = 0;
        instructions = load 0 7 ∷ load 1 7 ∷ [];
        terminator = record { opcode = TerminatorOpcode.return; operands = int 1 ∷ [] };
      }
      ∷ [];
  entry = 0;
  space_id = 0;
  rest_param = none;
}

eliminate_cse_lem_example : eliminate_cse same_constant 1 twice ≡ some twice
eliminate_cse_lem_example = eliminate_cse_lem same_constant 0 twice
