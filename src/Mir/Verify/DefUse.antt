-- ===== src/Mir/Verify/DefUse.antt =====
-- qy/ir/mir/__init__.py, _verify_def_use: the registers that are defined on every path to a block,
-- and the uses of others. A set of registers is a list, of which the order and the repetitions do
-- not matter. The dictionary `incoming` maps a block to None where this one has no entry.
use qy.Prelude.{
  ℕ, zero, suc, ◌*◌, Bool, true, false, not, ◌&&◌, Option, none, some, List, [], ◌∷◌, ◌++◌, map,
  length, filterb, ◌==◌, ltb, if◌then◌else◌,
}
use qy.Prelude.Members.{elem}
use qy.Mir.Node.{
  Operand, Opcode, append_result, all_gather, apply, build_tuple, cache_eval, call, define_module,
  define_once, effect_handle_end, effect_resume, load_const, load_host, load_env, make_function,
  make_macro, move, parallel_gather, race_first, runtime_eval, store_local, TerminatorOpcode,
  branch, effect_perform, raise_effect, return, tail_call, Instruction, Block, Function,
}
use qy.Mir.Operands.{int_at, tuple_ints_at, range, range_from, collect, terminator_targets}
use qy.Mir.Verify.Problem.{Diagnostic, report_all, warning, use_before_definition}

-- The opcodes of _DEFINE_OPCODES, which write operands[0], and EFFECT_HANDLE_END, which writes
-- operands[1].
abbrev pub defined_at : Opcode → List Operand → List ℕ
defined_at load_host ops = int_at 0 ops
defined_at load_const ops = int_at 0 ops
defined_at load_env ops = int_at 0 ops
defined_at move ops = int_at 0 ops
defined_at call ops = int_at 0 ops
defined_at make_function ops = int_at 0 ops
defined_at make_macro ops = int_at 0 ops
defined_at build_tuple ops = int_at 0 ops
defined_at apply ops = int_at 0 ops
defined_at runtime_eval ops = int_at 0 ops
defined_at cache_eval ops = int_at 0 ops
defined_at define_module ops = int_at 0 ops
defined_at effect_resume ops = int_at 0 ops
defined_at all_gather ops = int_at 0 ops
defined_at parallel_gather ops = int_at 0 ops
defined_at race_first ops = int_at 0 ops
defined_at effect_handle_end ops = int_at 1 ops
defined_at _ ops = []

unfoldable pub defined_by : Instruction → List ℕ
defined_by i = defined_at i.opcode i.operands

abbrev pub perform_defined : TerminatorOpcode → List Operand → List ℕ
perform_defined effect_perform ops = int_at 0 ops
perform_defined _ ops = []

unfoldable pub instructions_exit : List Instruction → List ℕ → List ℕ
instructions_exit [] defined = defined
instructions_exit (i ∷ is) defined = instructions_exit is (defined_by i ++ defined)

unfoldable pub block_exit : Block → List ℕ → List ℕ
block_exit b entry =
    perform_defined b.terminator.opcode b.terminator.operands
    ++ instructions_exit b.instructions entry

abbrev pub subset : List ℕ → List ℕ → Bool
subset [] ys = true
subset (x ∷ xs) ys = elem x ys && subset xs ys

abbrev pub same_set : List ℕ → List ℕ → Bool
same_set xs ys = subset xs ys && subset ys xs

abbrev pub intersect : List ℕ → List ℕ → List ℕ
intersect xs ys = filterb (λ x. elem x ys) xs

pub record Entry : Type 0 where
  pub id : ℕ
  pub defined : List ℕ

unfoldable pub get : ℕ → List Entry → Option (List ℕ)
get id [] = none
get id (e ∷ es) = if id == e.id then some e.defined else get id es

abbrev pub set_entry : ℕ → List ℕ → List Entry → List Entry
set_entry id defined es = record { id = id; defined = defined } ∷ es

-- `exit_defs if target_entry is None else (target_entry & exit_defs)`
abbrev pub merge : List ℕ → Option (List ℕ) → List ℕ
merge exit_defs none = exit_defs
merge exit_defs (some entry) = intersect entry exit_defs

-- `merged != target_entry`
abbrev pub differs : List ℕ → Option (List ℕ) → Bool
differs merged none = true
differs merged (some entry) = not (same_set merged entry)

-- `incoming` and `changed`.
pub record Flow : Type 0 where
  pub incoming : List Entry
  pub changed : Bool

unfoldable pub flow_target : List ℕ → ℕ → Flow → Flow
flow_target exit_defs id s =
    let merged = merge exit_defs (get id s.incoming) in
    if differs merged (get id s.incoming)
    then record { incoming = set_entry id merged s.incoming; changed = true }
    else s

unfoldable pub flow_targets : List ℕ → List ℕ → Flow → Flow
flow_targets exit_defs [] s = s
flow_targets exit_defs (id ∷ ids) s = flow_targets exit_defs ids (flow_target exit_defs id s)

abbrev pub flow_from : Block → Option (List ℕ) → Flow → Flow
flow_from b none s = s
flow_from b (some entry) s = flow_targets (block_exit b entry) (terminator_targets b.terminator) s

unfoldable pub flow_block : Block → Flow → Flow
flow_block b s = flow_from b (get b.id s.incoming) s

unfoldable pub flow_blocks : List Block → Flow → Flow
flow_blocks [] s = s
flow_blocks (b ∷ bs) s = flow_blocks bs (flow_block b s)

abbrev pub flow_round : List Block → List Entry → Flow
flow_round bs es = flow_blocks bs (record { incoming = es; changed = false })

-- `while changed`, a unit of fuel for each round.
unfoldable pub flow : ℕ → List Block → List Entry → Option (List Entry)
flow zero bs es = none
flow (suc fuel) bs es =
    let s = flow_round bs es in
    let again = flow fuel bs s.incoming in if s.changed then again else some s.incoming

unfoldable pub all_targets : List Block → List ℕ
all_targets [] = []
all_targets (b ∷ bs) = terminator_targets b.terminator ++ all_targets bs

-- Every register that the blocks define.
unfoldable pub all_defined : List Block → List ℕ
all_defined [] = []
all_defined (b ∷ bs) = block_exit b [] ++ all_defined bs

abbrev pub param_defined : Function → List ℕ
param_defined f = range (length f.params)

-- A round that changes something gives a target its first set, or takes a register out of one.
unfoldable pub flow_fuel : Function → ℕ
flow_fuel f =
    suc (length (all_targets f.blocks) * suc (length (param_defined f ++ all_defined f.blocks)))

abbrev pub first_entry : List Block → List ℕ → List Entry
first_entry [] params = []
first_entry (b ∷ _) params = set_entry b.id params []

unfoldable pub incoming_of : Function → Option (List Entry)
incoming_of f = flow (flow_fuel f) f.blocks (first_entry f.blocks (param_defined f))

-- _collect_register_uses. The default case of the source stands for no opcode of the model.
abbrev pub opcode_uses : Opcode → List Operand → List ℕ
opcode_uses move ops = int_at 1 ops
opcode_uses effect_resume ops = int_at 1 ops ++ int_at 2 ops
opcode_uses call ops = int_at 1 ops ++ tuple_ints_at 2 ops
opcode_uses apply ops = int_at 1 ops ++ int_at 2 ops
opcode_uses runtime_eval ops = int_at 1 ops
opcode_uses build_tuple ops = collect int_at (range_from 1 (length ops)) ops
opcode_uses append_result ops = int_at 0 ops
opcode_uses store_local ops = int_at 1 ops
opcode_uses define_once ops = int_at 1 ops
opcode_uses _ ops = []

abbrev pub exit_uses : TerminatorOpcode → List Operand → List ℕ
exit_uses branch ops = int_at 0 ops
exit_uses return ops = int_at 0 ops
exit_uses tail_call ops = int_at 0 ops ++ tuple_ints_at 1 ops
exit_uses raise_effect ops = int_at 1 ops
exit_uses effect_perform ops = int_at 2 ops
exit_uses _ ops = []

-- sorted(uses)
abbrev pub insert_sorted : ℕ → List ℕ → List ℕ
insert_sorted x [] = x ∷ []
insert_sorted x (y ∷ ys) =
    let rest = y ∷ insert_sorted x ys in
    if ltb x y then x ∷ y ∷ ys else if x == y then y ∷ ys else rest

abbrev pub sorted_set : List ℕ → List ℕ
sorted_set [] = []
sorted_set (x ∷ xs) = insert_sorted x (sorted_set xs)

-- The registers that are used and not defined, in order.
unfoldable pub undefined : List ℕ → List ℕ → List ℕ
undefined used defined = filterb (λ r. not (elem r defined)) (sorted_set used)

unfoldable pub instructions_undefined : List Instruction → List ℕ → List ℕ
instructions_undefined [] defined = []
instructions_undefined (i ∷ is) defined =
    undefined (opcode_uses i.opcode i.operands) defined
    ++ instructions_undefined is (defined_by i ++ defined)

abbrev pub entry_defined : Function → Option (List ℕ) → List ℕ
entry_defined f none = param_defined f
entry_defined f (some entry) = entry

unfoldable pub block_undefined : Block → List ℕ → List ℕ
block_undefined b entry =
    instructions_undefined b.instructions entry
    ++ undefined (exit_uses b.terminator.opcode b.terminator.operands)
        (instructions_exit b.instructions entry)

unfoldable pub report_blocks : Function → List Entry → List Block → List Diagnostic
report_blocks f es [] = []
report_blocks f es (b ∷ bs) =
    report_all warning (some f.name) (some b.id)
      (map use_before_definition (block_undefined b (entry_defined f (get b.id es))))
    ++ report_blocks f es bs

abbrev pub report_flow : Function → Option (List Entry) → List Diagnostic
report_flow f none = []
report_flow f (some es) = report_blocks f es f.blocks

unfoldable pub verify_def_use : Function → List Diagnostic
verify_def_use f = report_flow f (incoming_of f)
