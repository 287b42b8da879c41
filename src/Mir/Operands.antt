-- ===== src/Mir/Operands.antt =====
-- qy/ir/mir/__init__.py: which operands of an instruction or a terminator are registers, which
-- one is written, and which are block targets; and qy/analysis/liveness.py: the registers that
-- an instruction or a terminator reads and writes, from those tables.

use Prim.Native.Nat.{min}
use qy.Prelude.{
  ℕ, zero, suc, Bool, false, Option, none, some, List, [], ◌∷◌, ◌++◌, leb, ◌==◌, length, get_elem?,
  filterb, not, if◌then◌else◌,
}
use qy.Mir.Node.{
  Item, reg, thing, Operand, int, boolean, bit, tuple, Opcode, append_result, all_gather, apply,
  build_tuple, cache_eval, call, define_module, define_once, effect_handle_end, effect_resume,
  load_const, load_host, load_env, make_function, make_macro, move, parallel_gather, race_first,
  runtime_eval, store_local, TerminatorOpcode, branch, effect_perform, jump, raise_effect, return,
  tail_call, Instruction, Terminator,
}

-- tuple(range(start, start + n))
abbrev pub range_from : ℕ → ℕ → List ℕ
range_from start zero = []
range_from start (suc n) = start ∷ range_from (suc start) n

-- tuple(range(n))
abbrev pub range : ℕ → List ℕ
range n = range_from 0 n

-- `positions if len(operands) >= n else ()`
abbrev pub when_least : ℕ → List Operand → List ℕ → List ℕ
when_least n ops positions = if leb n (length ops) then positions else []

abbrev pub register_positions : Opcode → List Operand → List ℕ
register_positions load_host ops = when_least 1 ops (0 ∷ [])
register_positions load_const ops = when_least 1 ops (0 ∷ [])
register_positions load_env ops = when_least 1 ops (0 ∷ [])
register_positions make_function ops = when_least 1 ops (0 ∷ [])
register_positions make_macro ops = when_least 1 ops (0 ∷ [])
register_positions move ops = when_least 2 ops (range (min 2 (length ops)))
register_positions runtime_eval ops = when_least 2 ops (range (min 2 (length ops)))
register_positions effect_resume ops = range (min 3 (length ops))
register_positions store_local ops = when_least 2 ops (1 ∷ [])
register_positions define_once ops = when_least 2 ops (1 ∷ [])
register_positions call ops = when_least 2 ops (range (min 2 (length ops)))
register_positions apply ops = range (min 3 (length ops))
register_positions build_tuple ops = range (length ops)
register_positions append_result ops = when_least 1 ops (0 ∷ [])
register_positions cache_eval ops = when_least 1 ops (0 ∷ [])
register_positions define_module ops = when_least 1 ops (0 ∷ [])
register_positions all_gather ops = when_least 1 ops (0 ∷ [])
register_positions parallel_gather ops = when_least 1 ops (0 ∷ [])
register_positions race_first ops = when_least 1 ops (0 ∷ [])
register_positions effect_handle_end ops = when_least 2 ops (1 ∷ [])
register_positions _ ops = []

unfoldable pub register_operand_positions : Instruction → List ℕ
register_operand_positions i = register_positions i.opcode i.operands

abbrev pub def_position : Opcode → List Operand → Option ℕ
def_position load_const ops = some 0
def_position load_host ops = some 0
def_position load_env ops = some 0
def_position move ops = some 0
def_position make_function ops = some 0
def_position make_macro ops = some 0
def_position build_tuple ops = some 0
def_position call ops = some 0
def_position apply ops = some 0
def_position runtime_eval ops = some 0
def_position cache_eval ops = some 0
def_position define_module ops = some 0
def_position all_gather ops = some 0
def_position parallel_gather ops = some 0
def_position race_first ops = some 0
def_position effect_handle_end ops = if leb 2 (length ops) then some 1 else none
def_position effect_resume ops = some 0
def_position _ ops = none

abbrev pub when_any : List Operand → Option ℕ → Option ℕ
when_any [] p = none
when_any (_ ∷ _) p = p

unfoldable pub register_def_position : Instruction → Option ℕ
register_def_position i = when_any i.operands (def_position i.opcode i.operands)

abbrev pub tuple_positions : Opcode → List Operand → List ℕ
tuple_positions call ops = when_least 3 ops (2 ∷ [])
tuple_positions _ ops = []

-- `TAIL_CALL` is a terminator's opcode: its two tests never hold of an instruction.
unfoldable pub register_tuple_positions : Instruction → List ℕ
register_tuple_positions i = tuple_positions i.opcode i.operands

abbrev pub terminator_positions : TerminatorOpcode → List Operand → List ℕ
terminator_positions return ops = when_least 1 ops (0 ∷ [])
terminator_positions branch ops = when_least 1 ops (0 ∷ [])
terminator_positions raise_effect ops = when_least 2 ops (1 ∷ [])
terminator_positions effect_perform ops = when_least 3 ops (0 ∷ 2 ∷ [])
terminator_positions tail_call ops = when_least 1 ops (0 ∷ [])
terminator_positions jump ops = []

unfoldable pub terminator_register_positions : Terminator → List ℕ
terminator_register_positions t = terminator_positions t.opcode t.operands

abbrev terminator_tuples : TerminatorOpcode → List Operand → List ℕ
terminator_tuples tail_call ops = when_least 2 ops (1 ∷ [])
terminator_tuples _ ops = []

unfoldable pub terminator_register_tuple_positions : Terminator → List ℕ
terminator_register_tuple_positions t = terminator_tuples t.opcode t.operands

abbrev pub terminator_def : TerminatorOpcode → Option ℕ
terminator_def effect_perform = some 0
terminator_def _ = none

unfoldable pub terminator_register_def_position : Terminator → Option ℕ
terminator_register_def_position t = when_any t.operands (terminator_def t.opcode)

-- [operands[i]], if it is there and an integer.
abbrev pub int_at : ℕ → List Operand → List ℕ
int_at i ops = elim (get_elem? ops i) [
  | some (int n) ↦ n ∷ []
  | some (boolean b) ↦ bit b ∷ []
  | _ ↦ []
]

abbrev target_positions : TerminatorOpcode → List ℕ
target_positions jump = 0 ∷ []
target_positions branch = 1 ∷ 2 ∷ []
target_positions effect_perform = 3 ∷ []
target_positions _ = []

unfoldable pub terminator_target_positions : Terminator → List ℕ
terminator_target_positions t = target_positions t.opcode

abbrev pub targets : TerminatorOpcode → List Operand → List ℕ
targets jump ops = int_at 0 ops
targets branch ops = int_at 1 ops ++ int_at 2 ops
targets effect_perform ops = int_at 3 ops
targets _ ops = []

unfoldable pub terminator_targets : Terminator → List ℕ
terminator_targets t = targets t.opcode t.operands

-- The integers of a tuple.
abbrev pub item_ints : List Item → List ℕ
item_ints [] = []
item_ints (reg n ∷ items) = n ∷ item_ints items
item_ints (thing _ ∷ items) = item_ints items

-- The integers of a tuple operand, if it is there and a tuple.
abbrev pub tuple_ints_at : ℕ → List Operand → List ℕ
tuple_ints_at i ops = elim (get_elem? ops i) [ some (tuple items) ↦ item_ints items | _ ↦ [] ]

abbrev pub is_at : Option ℕ → ℕ → Bool
is_at none i = false
is_at (some d) i = i == d

abbrev pub without_def : Option ℕ → List ℕ → List ℕ
without_def d positions = filterb (λ i. not (is_at d i)) positions

abbrev pub collect : (ℕ → List Operand → List ℕ) → List ℕ → List Operand → List ℕ
collect at [] ops = []
collect at (i ∷ positions) ops = at i ops ++ collect at positions ops

-- The registers that an instruction reads, in the order of the source's two loops; the source
-- collects them into a set.
unfoldable pub uses : Instruction → List ℕ
unfolding register_operand_positions register_tuple_positions register_def_position
uses i =
    collect int_at (without_def (register_def_position i) (register_operand_positions i)) i.operands
    ++ collect tuple_ints_at (without_def (register_def_position i) (register_tuple_positions i))
        i.operands

abbrev pub first : List ℕ → Option ℕ
first [] = none
first (x ∷ _) = some x

abbrev pub int_at? : Option ℕ → List Operand → Option ℕ
int_at? none ops = none
int_at? (some d) ops = first (int_at d ops)

-- The register that an instruction writes.
unfoldable pub def : Instruction → Option ℕ
unfolding register_def_position
def i = int_at? (register_def_position i) i.operands

abbrev pub int_or_tuple_at : ℕ → List Operand → List ℕ
int_or_tuple_at i ops = int_at i ops ++ tuple_ints_at i ops

abbrev pub tail_call_arguments : TerminatorOpcode → List Operand → List ℕ
tail_call_arguments tail_call ops = tuple_ints_at 1 ops
tail_call_arguments _ ops = []

unfoldable pub terminator_uses : Terminator → List ℕ
unfolding terminator_register_positions terminator_register_def_position
terminator_uses t =
    collect int_or_tuple_at
      (without_def (terminator_register_def_position t) (terminator_register_positions t))
      t.operands
    ++ tail_call_arguments t.opcode t.operands

abbrev pub written_by : TerminatorOpcode → List Operand → Option ℕ
written_by effect_perform ops = first (int_at 0 ops)
written_by _ ops = none

unfoldable pub written : Terminator → Option ℕ
written t = written_by t.opcode t.operands
