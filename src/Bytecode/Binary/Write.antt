-- ===== src/Bytecode/Binary/Write.antt =====
-- serialize_bytecode.
use qy.Prelude.{ℕ, Option, some, List, [], ◌∷◌, ◌++◌, length, ◌>>=◌}
use qy.Bytecode.Program.{Instruction, BytecodeFunction, Diagnostic, BytecodeProgram}
use qy.Bytecode.Binary.Words.{pack_uint16, pack_uint32}

-- str.encode("utf-8") and pickle.dumps.
pub record Encoder (Text Object : Type 0) : Type 0 where
  pub encode : Text → List ℕ
  pub dumps : Object → List ℕ

abbrev pub magic : List ℕ
magic = 81 ∷ 89 ∷ 0 ∷ 1 ∷ []

-- The length of the bytes in front of them.
unfoldable pub write_bytes : List ℕ → Option (List ℕ)
write_bytes bs = do n ← pack_uint32 (length bs); some (n ++ bs)

-- The parts of a list, one after the other.
unfoldable pub write_all : {A : Type 0} → (A → Option (List ℕ)) → List A → Option (List ℕ)
write_all write [] = some []
write_all write (a ∷ as') = do bs ← write a; cs ← write_all write as'; some (bs ++ cs)

-- The number of the items in front of them.
unfoldable pub write_list : {A : Type 0} → (A → Option (List ℕ)) → List A → Option (List ℕ)
write_list write items = do
  n ← pack_uint32 (length items)
  bs ← write_all write items
  some (n ++ bs)

module _ {Text Object : Type 0} (e : Encoder Text Object) where
  abbrev pub write_string : Text → Option (List ℕ)
  write_string s = write_bytes (e.encode s)

  abbrev pub write_operand : Object → Option (List ℕ)
  write_operand o = write_bytes (e.dumps o)

  unfoldable pub write_instruction : Instruction Text Object → Option (List ℕ)
  write_instruction i = do
    opcode ← write_string i.opcode
    operands ← write_list write_operand i.operands
    some (opcode ++ operands)

  unfoldable pub write_function : BytecodeFunction Text Object → Option (List ℕ)
  write_function f = do
    name ← write_string f.name
    params ← write_list write_string f.params
    registers ← pack_uint32 f.register_count
    instructions ← write_list write_instruction f.instructions
    some (name ++ (params ++ (registers ++ instructions)))

  unfoldable pub write_diagnostic : Diagnostic Text → Option (List ℕ)
  write_diagnostic d = do
    severity ← write_string d.severity
    message ← write_string d.message
    some (severity ++ message)

  unfoldable pub serialize_bytecode : BytecodeProgram Text Object → Option (List ℕ)
  serialize_bytecode p = do
    version ← pack_uint16 1
    main ← pack_uint32 p.main
    function_count ← pack_uint32 (length p.functions)
    diagnostic_count ← pack_uint32 (length p.diagnostics)
    functions ← write_all write_function p.functions
    diagnostics ← write_all write_diagnostic p.diagnostics
    some (
        magic
        ++ (version
            ++ (main ++ (function_count ++ (diagnostic_count ++ (functions ++ diagnostics))))))
