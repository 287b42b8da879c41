-- ===== src/Examples/Peephole.antt =====
-- The peephole pass on a small function.
use qy.Prelude.{◌≡◌, refl, Bool, false, none, some, List, [], ◌∷◌, ◌==◌}
use qy.Mir.Node.{Operand, int, object, nothing, other}
use qy.Lir.Node.{Instruction, Opcode, move, load_host, load_nil, load_t, return}
use qy.Lir.Peephole.{peephole, visit_all, used_registers}
use qy.Lir.Peephole.Tidy.{tidy, peephole-tidy}

abbrev same_register : Operand → Operand → Bool
same_register (int a) (int b) = a == b
same_register _ _ = false

abbrev line : Opcode → List Operand → Instruction
line o ops = record { opcode = o; operands = ops; continuous = false }

-- The object 8 is T. The second MOVE could be forwarded to the RETURN, and is not.
abbrev body : List Instruction
body =
    line load_host (int 0 ∷ object nothing ∷ [])
    ∷ line load_host (int 1 ∷ object (other 8) ∷ [])
    ∷ line move (int 1 ∷ int 1 ∷ [])
    ∷ line move (int 2 ∷ int 1 ∷ [])
    ∷ line return (int 2 ∷ [])
    ∷ []

abbrev tidy_body : List Instruction
tidy_body =
    line load_nil (int 0 ∷ [])
    ∷ line load_t (int 1 ∷ [])
    ∷ line move (int 2 ∷ int 1 ∷ [])
    ∷ line return (int 2 ∷ [])
    ∷ []

tidies : peephole same_register 8 2 body ≡ some tidy_body
unfolding peephole visit_all used_registers
tidies = refl

-- A MOVE without a source is an error.
raises : peephole same_register 8 2 (line move (int 1 ∷ []) ∷ []) ≡ none
unfolding peephole visit_all used_registers
raises = refl

peephole-tidy_example : peephole same_register 8 2 body ≡ tidy same_register 8 body
peephole-tidy_example = peephole-tidy same_register 8 0 body
