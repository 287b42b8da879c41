-- ===== src/Mir/Node.antt =====
-- qy/ir/mir/node.py: instructions, terminators, blocks and functions of the MIR.
-- A Python operand is an integer (a register, a block id, an index), a Boolean, which Python counts
-- among the integers as 0 or 1, a tuple, or some other object. Spans are left out.
use qy.Prelude.{ℕ, Bool, true, false, List, Option, none, some}
use qy.Prelude.Int.{ℤ, pos, negsuc}

-- An entry of a tuple operand.
pub data Item : Type 0 where
  reg : ℕ → Item
  thing : ℕ → Item

-- Operands of which no pass reads more than their class. `minus n` is the integer -(n + 1), which
-- is a space id at most: no register and no block has a negative number.
pub data Object : Type 0 where
  symbol : ℕ → Object
  minus : ℕ → Object
  nothing : Object
  other : ℕ → Object

pub data Operand : Type 0 where
  int : ℕ → Operand
  boolean : Bool → Operand
  tuple : List Item → Operand
  object : Object → Operand

-- The number that a Boolean stands for.
abbrev pub bit : Bool → ℕ
bit true = 1
bit false = 0

-- The integer that an operand is, if `isinstance(operand, int)`.
abbrev pub as_int : Operand → Option ℤ
as_int (int n) = some (pos n)
as_int (boolean b) = some (pos (bit b))
as_int (object (minus n)) = some (negsuc n)
as_int _ = none

pub data Opcode : Type 0 where
  append_result all_gather apply build_tuple cache_eval call : Opcode
  defeffect define_module define_once : Opcode
  effect_handle_begin effect_handle_end effect_resume : Opcode
  enter_scope exit_scope from_import : Opcode
  load_const load_host load_env make_function make_macro move : Opcode
  parallel_gather race_first runtime_eval store_local : Opcode

pub data TerminatorOpcode : Type 0 where
  branch effect_perform jump raise_effect return tail_call : TerminatorOpcode

-- `continuous` marks a point that no pass may interrupt.
pub record Instruction : Type 0 where
  pub opcode : Opcode
  pub operands : List Operand
  pub continuous : Bool

pub record Terminator : Type 0 where
  pub opcode : TerminatorOpcode
  pub operands : List Operand

pub record Block : Type 0 where
  pub id : ℕ
  pub instructions : List Instruction
  pub terminator : Terminator

-- `params` holds the parameters' names, `space_id` the lexical symbol space.
pub record Function : Type 0 where
  pub name : ℕ
  pub params : List ℕ
  pub register_count : ℕ
  pub blocks : List Block
  pub entry : ℕ
  pub space_id : ℕ
  pub rest_param : Option ℕ
