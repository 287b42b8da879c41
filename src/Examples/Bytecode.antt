-- ===== src/Examples/Bytecode.antt =====
-- The binary format on a small program, with a codec that writes a number as one byte.
use qy.Prelude.{ℕ, ◌≡◌, refl, Option, some, none, List, [], ◌∷◌, ◌++◌}
use qy.Bytecode.Program.{BytecodeProgram}
use qy.Bytecode.Binary.Reader.{raised, truncated}
use qy.Bytecode.Binary.Write.{Encoder, serialize_bytecode}
use qy.Bytecode.Binary.Write
use qy.Bytecode.Binary.Read.{Decoder, deserialize_bytecode}
use qy.Bytecode.Binary.Roundtrip.{Laws, deserialize_bytecode-truncated}

abbrev encoder : Encoder ℕ ℕ
encoder = record { encode = λ n. n ∷ []; dumps = λ n. n ∷ [] }

abbrev one_byte : List ℕ → Option ℕ
one_byte (n ∷ []) = some n
one_byte _ = none

abbrev decoder : Decoder ℕ ℕ
decoder = record { decode = one_byte; loads = one_byte }

abbrev laws : Laws encoder decoder
laws = record { decode-encode = λ s. refl; loads-dumps = λ o. refl }

-- One function with one instruction, and a warning.
abbrev program : BytecodeProgram ℕ ℕ
program = record {
  functions =
      record {
        name = 70;
        params = 71 ∷ 72 ∷ [];
        register_count = 300;
        instructions = record { opcode = 73; operands = 1 ∷ 2 ∷ []; span = some 5 } ∷ [];
        symbol_spaces = 4 ∷ [];
        rest_param = some 74;
      }
      ∷ [];
  main = 0;
  diagnostics =
      record { message = 75; severity = 76; line = some 3; column = none; span = none } ∷ [];
  symbol_spaces = [];
  hygiene_bindings = [];
  module_macro_exports = [];
}

abbrev text : ℕ → List ℕ
text n = 1 ∷ 0 ∷ 0 ∷ 0 ∷ n ∷ []

abbrev count : ℕ → List ℕ
count n = n ∷ 0 ∷ 0 ∷ 0 ∷ []

abbrev starts : List ℕ
starts =
    81
    ∷ 89
    ∷ 0
    ∷ 1
    ∷ 1
    ∷ 0
    ∷ (count 0
        ++ (count 1
            ++ (count 1
                ++ (text 70
                    ++ (count 2
                        ++ (text 71
                            ++ (text 72
                                ++ (44
                                    ∷ 1
                                    ∷ 0
                                    ∷ 0
                                    ∷ (count 1
                                        ++ (text 73
                                            ++ (count 2
                                                ++ (text 1 ++ (text 2 ++ text 76)))))))))))))

abbrev written : List ℕ
written = starts ++ text 75

writes : serialize_bytecode encoder program ≡ some written
unfolding serialize_bytecode Write.write_all Write.write_function Write.write_list Write.write_bytes
    Write.write_instruction Write.write_diagnostic
writes = refl

deserialize_bytecode-truncated_example : deserialize_bytecode decoder starts ≡ raised truncated
deserialize_bytecode-truncated_example =
    deserialize_bytecode-truncated encoder decoder laws program written starts writes
      (1, 0 ∷ 0 ∷ 0 ∷ 75 ∷ [], refl)
