-- ===== src/Mir/Semantics.antt =====
-- What running a MIR function means, for every machine that runs the opcodes that load a register as
-- qy/vm/instance/machine.py does, and respects the register tables of qy/ir/mir/__init__.py in the
-- others. The machine is a parameter: what a call or an effect does is left open.
pub mod Reads
use qy.Prelude.{ℕ, zero, suc, ◌≡◌, ◌==◌, Option, none, some, List, [], ◌∷◌, ◌>>=◌, if◌then◌else◌}
use qy.Prelude.Members.{In}
use qy.Mir.Node.{
  Operand, int, boolean, bit, Opcode, load_host, load_const, load_env, move, make_function,
  make_macro, build_tuple, Instruction, Terminator, Block,
}
use qy.Mir.Operands.{uses, def, terminator_uses, written}

-- An instruction gives a value for the register that it writes, or ends the function.
pub data Step (Value World Answer : Type 0) : Type 0 where
  next : Value → World → Step Value World Answer
  stop : Answer → Step Value World Answer

-- A terminator goes to a block, with a value for the register that it writes, or ends the function.
pub data Leave (Value World Answer : Type 0) : Type 0 where
  goto : ℕ → Value → World → Leave Value World Answer
  halt : Answer → Leave Value World Answer

abbrev pub Agree : {A : Type 0} → List ℕ → (ℕ → A) → (ℕ → A) → Type 0
Agree used ρ ρ' = (r : ℕ) → In r used → ρ r ≡ ρ' r

-- A machine, as qy/vm/instance/machine.py runs the opcodes. The opcodes that load a register are
-- written out below; of the others, and of the terminators, only the registers that they read and
-- write are known, those of the register tables.
pub record Machine : Type 1 where
  pub Value : Type 0
  pub World : Type 0
  pub Answer : Type 0
  -- what a jump to a block that is not there answers
  pub lost : ℕ → Answer
  -- the answer of an instruction that raises an exception
  pub raised : Instruction → Answer
  -- the value of an operand as it stands, of an index of the constant pool, of a symbol in the
  -- environment, and of the index of a function; `none` raises
  pub host : Operand → Value
  pub constant : Operand → Option Value
  pub resolve : Operand → World → Option Value
  pub closure : Operand → World → Option Value
  -- _COMPILE_TIME_MACRO
  pub macro_value : Value
  pub tuple_of : List Value → Value
  pub other : Instruction → (ℕ → Value) → World → Step Value World Answer
  pub leave : Terminator → (ℕ → Value) → World → Leave Value World Answer
  pub other_reads :
      (i : Instruction) (ρ ρ' : ℕ → Value) (w : World)
      → Agree (uses i) ρ ρ'
      → other i ρ w ≡ other i ρ' w
  pub leave_reads :
      (t : Terminator) (ρ ρ' : ℕ → Value) (w : World)
      → Agree (terminator_uses t) ρ ρ'
      → leave t ρ w ≡ leave t ρ' w

-- frame.registers[_register(o)]
abbrev pub read : {A : Type 0} → Operand → (ℕ → A) → Option A
read (int n) ρ = some (ρ n)
read (boolean b) ρ = some (ρ (bit b))
read _ ρ = none

abbrev pub read_all : {A : Type 0} → List Operand → (ℕ → A) → Option (List A)
read_all [] ρ = some []
read_all (o ∷ ops) ρ = read o ρ >>= λ v. read_all ops ρ >>= λ vs. some (v ∷ vs)

-- _register(dest): the destination has to be a register.
abbrev pub to_register : {A : Type 0} → Operand → Option A → Option A
to_register (int _) v = v
to_register (boolean _) v = v
to_register _ v = none

abbrev pub put : {A : Type 0} → Option ℕ → A → (ℕ → A) → ℕ → A
put none v ρ r = ρ r
put (some d) v ρ r = if r == d then v else ρ r

-- The state after a run of instructions, or the answer of one that ended the function.
pub data Ran (Value World Answer : Type 0) : Type 0 where
  ran : (ℕ → Value) → World → Ran Value World Answer
  stopped : Answer → Ran Value World Answer

unfoldable pub find_block : ℕ → List Block → Option Block
find_block id [] = none
find_block id (b ∷ bs) = if b.id == id then some b else find_block id bs

module _ (m : Machine) where
  open m use {Value, World, Answer, leave, lost}

  -- dest, source = operands
  abbrev pub load_host_value : List Operand → Option Value
  load_host_value (dest ∷ value ∷ []) = to_register dest (some (m.host value))
  load_host_value _ = none

  abbrev pub load_const_value : List Operand → Option Value
  load_const_value (dest ∷ index ∷ []) = to_register dest (m.constant index)
  load_const_value _ = none

  abbrev pub load_env_value : List Operand → World → Option Value
  load_env_value (dest ∷ symbol ∷ []) w = to_register dest (m.resolve symbol w)
  load_env_value _ w = none

  abbrev pub move_value : List Operand → (ℕ → Value) → Option Value
  move_value (dest ∷ source ∷ []) ρ = to_register dest (read source ρ)
  move_value _ ρ = none

  abbrev pub function_value : List Operand → World → Option Value
  function_value (dest ∷ index ∷ []) w = to_register dest (m.closure index w)
  function_value _ w = none

  abbrev pub make_macro_value : List Operand → Option Value
  make_macro_value (dest ∷ _ ∷ _ ∷ _ ∷ []) = to_register dest (some m.macro_value)
  make_macro_value _ = none

  abbrev pub build_tuple_value : List Operand → (ℕ → Value) → Option Value
  build_tuple_value [] ρ = none
  build_tuple_value (dest ∷ ops) ρ =
      read_all ops ρ >>= λ vs. to_register dest (some (m.tuple_of vs))

  -- The opcodes that write a register and do nothing else, with the value, if they do not raise.
  abbrev pub load : Opcode → Option (List Operand → (ℕ → Value) → World → Option Value)
  load load_host = some (λ ops ρ w. load_host_value ops)
  load load_const = some (λ ops ρ w. load_const_value ops)
  load load_env = some (λ ops ρ w. load_env_value ops w)
  load move = some (λ ops ρ w. move_value ops ρ)
  load make_function = some (λ ops ρ w. function_value ops w)
  load make_macro = some (λ ops ρ w. make_macro_value ops)
  load build_tuple = some (λ ops ρ w. build_tuple_value ops ρ)
  load _ = none

  abbrev pub loaded : Instruction → World → Option Value → Step Value World Answer
  loaded i w none = stop (m.raised i)
  loaded i w (some v) = next v w

  abbrev pub exec_as :
      Option (List Operand → (ℕ → Value) → World → Option Value)
      → Instruction
      → (ℕ → Value)
      → World
      → Step Value World Answer
  exec_as none i ρ w = m.other i ρ w
  exec_as (some value) i ρ w = loaded i w (value i.operands ρ w)

  -- _execute_instruction
  unfoldable pub exec : Instruction → (ℕ → Value) → World → Step Value World Answer
  exec i ρ w = exec_as (load i.opcode) i ρ w

  unfoldable pub run_instructions : List Instruction → (ℕ → Value) → World → Ran Value World Answer
  run_instructions [] ρ w = ran ρ w
  run_instructions (i ∷ is) ρ w = elim (exec i ρ w) [
    | next v w' ↦ run_instructions is (put (def i) v ρ) w'
    | stop a ↦ stopped a
  ]

  unfoldable pub enter :
      (ℕ → (ℕ → Value) → World → Option Answer)
      → Option ℕ
      → (ℕ → Value)
      → Leave Value World Answer
      → Option Answer
  enter rest d ρ (halt a) = some a
  enter rest d ρ (goto id v w) = rest id (put d v ρ) w

  -- What is left of a block after its instructions: its terminator, and the `rest` of the run.
  unfoldable pub after :
      (ℕ → (ℕ → Value) → World → Option Answer) → Block → Ran Value World Answer → Option Answer
  after rest b (stopped a) = some a
  after rest b (ran ρ w) = enter rest (written b.terminator) ρ (leave b.terminator ρ w)

  unfoldable pub visit :
      (ℕ → (ℕ → Value) → World → Option Answer)
      → ℕ
      → (ℕ → Value)
      → World
      → Option Block
      → Option Answer
  visit rest id ρ w none = some (lost id)
  visit rest id ρ w (some b) = after rest b (run_instructions b.instructions ρ w)

  -- From a block on. `none`: the function did not end within the fuel, a unit a block.
  unfoldable pub run : ℕ → List Block → ℕ → (ℕ → Value) → World → Option Answer
  run zero bs id ρ w = none
  run (suc fuel) bs id ρ w = visit (run fuel bs) id ρ w (find_block id bs)
