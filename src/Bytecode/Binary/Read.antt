-- ===== src/Bytecode/Binary/Read.antt =====
-- deserialize_bytecode.
use qy.Prelude.{ℕ, Bool, true, false, ◌&&◌, ◌==◌, Option, some, none, List, [], ◌∷◌, if◌then◌else◌}
use qy.Bytecode.Program.{Instruction, BytecodeFunction, Diagnostic, BytecodeProgram}
use qy.Bytecode.Binary.Words.{unpack_uint16, unpack_uint32}
use qy.Bytecode.Binary.Write.{magic}
use qy.Bytecode.Binary.Reader.{
  Reader, ◌>>=◌, pure, fail, read_bytes, read_many, Failure, undecodable, unpicklable,
  invalid_magic, unsupported_version,
}

-- bytes.decode("utf-8") and pickle.loads. `none` is an exception.
pub record Decoder (Text Object : Type 0) : Type 0 where
  pub decode : List ℕ → Option Text
  pub loads : List ℕ → Option Object

unfoldable pub read_uint32 : Reader ℕ
read_uint32 = do bs ← read_bytes 4; pure (unpack_uint32 bs)

unfoldable pub read_uint16 : Reader ℕ
read_uint16 = do bs ← read_bytes 2; pure (unpack_uint16 bs)

-- The count of the items, and the loop over them.
unfoldable pub read_list : {A : Type 0} → Reader A → Reader (List A)
read_list r = do n ← read_uint32; read_many n r

abbrev pub or_fail : {A : Type 0} → Failure → Option A → Reader A
or_fail e (some a) = pure a
or_fail e none = fail e

abbrev pub same_bytes : List ℕ → List ℕ → Bool
same_bytes [] [] = true
same_bytes (x ∷ xs) (y ∷ ys) = x == y && same_bytes xs ys
same_bytes _ _ = false

module _ {Text Object : Type 0} (d : Decoder Text Object) where
  -- The bytes behind their length, decoded.
  unfoldable pub read_coded : {A : Type 0} → Failure → (List ℕ → Option A) → Reader A
  read_coded e decode = do n ← read_uint32; bs ← read_bytes n; or_fail e (decode bs)

  abbrev pub read_string : Reader Text
  read_string = read_coded undecodable d.decode

  abbrev pub read_operand : Reader Object
  read_operand = read_coded unpicklable d.loads

  unfoldable pub read_instruction : Reader (Instruction Text Object)
  read_instruction = do
    opcode ← read_string
    operands ← read_list read_operand
    pure (record { opcode = opcode; operands = operands; span = none })

  unfoldable pub read_function : Reader (BytecodeFunction Text Object)
  read_function = do
    name ← read_string
    params ← read_list read_string
    register_count ← read_uint32
    instructions ← read_list read_instruction
    pure (record {
      name = name;
      params = params;
      register_count = register_count;
      instructions = instructions;
      symbol_spaces = [];
      rest_param = none;
    })

  unfoldable pub read_diagnostic : Reader (Diagnostic Text)
  read_diagnostic = do
    severity ← read_string
    message ← read_string
    pure
        (record { message = message; severity = severity; line = none; column = none; span = none })

  unfoldable pub read_body : Reader (BytecodeProgram Text Object)
  read_body = do
    main_index ← read_uint32
    function_count ← read_uint32
    diagnostic_count ← read_uint32
    functions ← read_many function_count read_function
    diagnostics ← read_many diagnostic_count read_diagnostic
    pure (record {
      functions = functions;
      main = main_index;
      diagnostics = diagnostics;
      symbol_spaces = [];
      hygiene_bindings = [];
      module_macro_exports = [];
    })

  unfoldable pub check_version : ℕ → Reader (BytecodeProgram Text Object)
  check_version version = if version == 1 then read_body else fail (unsupported_version version)

  unfoldable pub check_magic : List ℕ → Reader (BytecodeProgram Text Object)
  check_magic bs =
      if same_bytes bs magic
      then (read_uint16 >>= λ version. check_version version)
      else fail invalid_magic

  -- What is left of the data behind the program is passed over.
  unfoldable pub deserialize_bytecode : Reader (BytecodeProgram Text Object)
  deserialize_bytecode = do bs ← read_bytes 4; check_magic bs
