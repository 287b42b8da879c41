-- ===== src/Examples/Lir.antt =====
-- Compaction of a small function, and the theorem about it.
use qy.Prelude.{◌≡◌, refl, false, none, some, List, [], ◌∷◌}
use qy.Mir.Node.{reg, int, tuple, object, other}
use qy.Lir.Node.{Instruction, load_env, call, return}
use qy.Lir.Compact.{Renaming, compact_registers}
use qy.Lir.Compact.Renames.{IsCompaction, compact_registers-rename}

-- One parameter; the registers 5 and 9 get the numbers 1 and 2.
abbrev body : List Instruction
body =
    record { opcode = load_env; operands = int 5 ∷ object (other 3) ∷ []; continuous = false }
    ∷ record {
      opcode = call;
      operands = int 9 ∷ int 5 ∷ tuple (reg 0 ∷ reg 5 ∷ []) ∷ [];
      continuous = false;
    }
    ∷ record { opcode = return; operands = int 9 ∷ []; continuous = false }
    ∷ []

abbrev compact_body : List Instruction
compact_body =
    record { opcode = load_env; operands = int 1 ∷ object (other 3) ∷ []; continuous = false }
    ∷ record {
      opcode = call;
      operands = int 2 ∷ int 1 ∷ tuple (reg 0 ∷ reg 1 ∷ []) ∷ [];
      continuous = false;
    }
    ∷ record { opcode = return; operands = int 2 ∷ []; continuous = false }
    ∷ []

compacts : compact_registers (7 ∷ []) body 10 ≡ some (compact_body, 3)
unfolding compact_registers
compacts = refl

-- A call without its tuple of arguments is an error.
raises :
    compact_registers []
      (record { opcode = call; operands = int 1 ∷ int 2 ∷ []; continuous = false } ∷ [])
      3
    ≡ none
unfolding compact_registers
raises = refl

compact_registers-rename_example : (s : Renaming) × IsCompaction (7 ∷ []) body compact_body 3 s
compact_registers-rename_example = compact_registers-rename (7 ∷ []) body 10 compact_body 3 compacts
