-- ===== src/Bytecode/Program.antt =====
-- qy/backend/vm/bytecode.py and qy/diag/diagnostic.py: the data of a bytecode program. A source span
-- and a symbol space's layout are a number that stands for its identity, and an operand is a Python
-- object; its type and that of strings are parameters.
use qy.Prelude.{ℕ, Option, List}

pub record Instruction (Text Object : Type 0) : Type 0 where
  pub opcode : Text
  pub operands : List Object
  pub span : Option ℕ

-- A symbol is its name.
pub record BytecodeFunction (Text Object : Type 0) : Type 0 where
  pub name : Text
  pub params : List Text
  pub register_count : ℕ
  pub instructions : List (Instruction Text Object)
  pub symbol_spaces : List ℕ
  pub rest_param : Option Text

pub record Diagnostic (Text : Type 0) : Type 0 where
  pub message : Text
  pub severity : Text
  pub line : Option ℕ
  pub column : Option ℕ
  pub span : Option ℕ

pub record HygieneBinding (Text : Type 0) : Type 0 where
  pub alias : Text
  pub target : Text

pub record MacroExports (Text : Type 0) : Type 0 where
  pub modules : Text
  pub names : List Text

pub record BytecodeProgram (Text Object : Type 0) : Type 0 where
  pub functions : List (BytecodeFunction Text Object)
  pub main : ℕ
  pub diagnostics : List (Diagnostic Text)
  pub symbol_spaces : List ℕ
  pub hygiene_bindings : List (HygieneBinding Text)
  pub module_macro_exports : List (MacroExports Text)
