-- ===== src/Lir/Peephole.antt =====
-- qy/passes/lir/peephole.py. A Python exception is `none`. The dict `copies` is left out, since the
-- pass writes it and never reads it. Whether two operands are equal in Python, and which object is
-- the T of qy/core/syntax.py, are parameters.
pub mod Used
pub mod Tidy
use qy.Prelude.{
  ℕ, zero, suc, Bool, true, false, not, ◌&&◌, ◌||◌, Option, none, some, List, [], ◌∷◌, ◌++◌, ◌==◌,
  ◌>>=◌, if◌then◌else◌,
}
use qy.Prelude.Int.{ℤ, pos, negsuc, same_int}
use qy.Mir.Node.{
  as_int, Item, reg, thing, Operand, int, boolean, bit, tuple, object, minus, nothing, other,
}
use qy.Lir.Node.{Opcode, move, load_host, load_nil, load_t, Instruction}

abbrev pub elem_int : ℤ → List ℤ → Bool
elem_int z [] = false
elem_int z (x ∷ xs) = same_int z x || elem_int z xs

abbrev pub item_ints : List Item → List ℤ
item_ints [] = []
item_ints (reg n ∷ items) = pos n ∷ item_ints items
item_ints (thing n ∷ items) = item_ints items

abbrev pub maybe_int : Option ℤ → List ℤ
maybe_int none = []
maybe_int (some z) = z ∷ []

abbrev pub operand_ints : Operand → List ℤ
operand_ints (tuple items) = item_ints items
operand_ints o = maybe_int (as_int o)

abbrev pub operands_ints : List Operand → List ℤ
operands_ints [] = []
operands_ints (o ∷ ops) = operand_ints o ++ operands_ints ops

-- `used`, all the integers among the operands.
unfoldable pub used_registers : List Instruction → List ℤ
used_registers [] = []
used_registers (i ∷ is) = operands_ints i.operands ++ used_registers is

-- What the loop does with an instruction: it is left out, another is put in its place, or it stays.
pub data Visit : Type 0 where
  drop : Visit
  replace : Instruction → Visit
  keep : Instruction → Visit

abbrev pub put : Visit → List Instruction → List Instruction
put drop is = is
put (replace i) is = i ∷ is
put (keep i) is = i ∷ is

abbrev pub is_change : Visit → Bool
is_change (keep _) = false
is_change _ = true

pub record Round : Type 0 where
  pub result : List Instruction
  pub changed : Bool

abbrev pub load : Opcode → Operand → Instruction
load o r = record { opcode = o; operands = r ∷ []; continuous = false }

-- A MOVE whose destination is nowhere used is left out.
abbrev pub forward_ints : List ℤ → Instruction → Option ℤ → Option ℤ → Visit
forward_ints used i (some dest) (some src) = if not (elem_int dest used) then drop else keep i
forward_ints used i _ _ = keep i

abbrev pub load_object : ℕ → Instruction → Operand → Operand → Visit
load_object truth i r (object nothing) = replace (load load_nil r)
load_object truth i r (object (other t)) = if t == truth then replace (load load_t r) else keep i
load_object truth i r _ = keep i

abbrev pub visit_load : ℕ → Instruction → List Operand → Visit
visit_load truth i (r ∷ value ∷ _) = load_object truth i r value
visit_load truth i _ = keep i

-- The case for a MOVE, the one for a LOAD_HOST, and the one for another opcode.
abbrev pub by_opcode : Option Visit → Visit → Visit → Opcode → Option Visit
by_opcode m l k move = m
by_opcode m l k load_host = some l
by_opcode m l k _ = some k

module _ (same : Operand → Operand → Bool) (truth : ℕ) where
  abbrev pub visit_move : List ℤ → Instruction → List Operand → Option Visit
  visit_move used i (dest ∷ src ∷ _) =
      some (if same dest src then drop else forward_ints used i (as_int dest) (as_int src))
  visit_move used i _ = none

  abbrev pub visit : List ℤ → Instruction → Option Visit
  visit used i =
      by_opcode (visit_move used i i.operands) (visit_load truth i i.operands) (keep i) i.opcode

  -- The second loop over the instructions.
  unfoldable pub visit_all : List ℤ → List Instruction → Option Round
  visit_all used [] = some (record { result = []; changed = false })
  visit_all used (i ∷ is) = do
    v ← visit used i
    rest ← visit_all used is
    some (record { result = put v rest.result; changed = is_change v || rest.changed })

  -- `while changed`, a unit of fuel for each round.
  unfoldable pub peephole : ℕ → List Instruction → Option (List Instruction)
  peephole zero is = none
  peephole (suc fuel) is = do
    r ← visit_all (used_registers is) is
    let again = peephole fuel r.result
    if r.changed then again else some r.result
