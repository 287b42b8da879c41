-- ===== src/Examples/Verify.antt =====
-- verify_mir on a function with a branch, a handler and a loop.
use qy.Prelude.{
  Option, Option-cases, ◌==◌, if◌then◌else◌, ℕ, ◌<◌, ◌≡◌, refl, sym, ap, subst, inl, inr, ◌↔◌,
  false, none, some, List, [], ◌∷◌, arith, length,
}
use qy.Prelude.Members.{In}
use qy.Mir.Node.{
  Operand, int, tuple, Opcode, Instruction, Terminator, TerminatorOpcode, Block, Function,
}
use qy.Mir.Operands
use qy.Mir.Verify.Program
use qy.Mir.Verify.Schema
use qy.Mir.Verify.Reach
use qy.Mir.Verify.DefUse
use qy.Mir.Verify.Pairing
use qy.Mir.Operands.{terminator_targets, terminator_uses, uses}
use qy.Mir.Semantics
use qy.Examples.Dce.{counting, go, total}
use qy.Mir.Dce.{eliminate_dead}
use qy.Mir.Dce.Fixpoint.{IsClean}
use qy.Mir.Semantics.{run, Leave, goto, halt, Step, next, stop, Agree}
use qy.Mir.Verify.Problem.{IsAccepted, errors}
use qy.Mir.Verify.Reach.{unreachable_blocks, ids}
use qy.Mir.Verify.Walk.{Reaches, unreachable_blocks_lem}
use qy.Mir.Verify.DefUse.{verify_def_use, param_defined, block_exit}
use qy.Mir.Verify.Initial.{verify_def_use-run}
use qy.Mir.Dce.CoverTerminator.{IsPlain}
use qy.Mir.Verify.Pairing.{m9_effect_handle_pairing, m10_scope_nesting}
use qy.Mir.Verify.Nested.{Balanced, handle_events, m9_effect_handle_pairing-Balanced}
use qy.Mir.Verify.Program.{Program, verify_function, verify_mir}
use qy.Mir.Verify.Accepted.{IsWellFormed, verify_mir-IsWellFormed}
use qy.Mir.Verify.Stays.{run-stays, KeepsTargets, Answers}
use qy.Mir.Verify.Readable.{eliminate_dead-accepted}

abbrev ins : Opcode → List Operand → Instruction
ins o ops = record { opcode = o; operands = ops; continuous = false }

abbrev leaves : TerminatorOpcode → List Operand → Terminator
leaves o ops = record { opcode = o; operands = ops }

abbrev test_block : Block
test_block = record {
  id = 0;
  instructions = ins Opcode.load_const (int 1 ∷ int 0 ∷ []) ∷ [];
  terminator = leaves TerminatorOpcode.branch (int 0 ∷ int 1 ∷ int 2 ∷ []);
}

-- It handles an effect around a constant, and goes back.
abbrev loop_block : Block
loop_block = record {
  id = 1;
  instructions =
      ins Opcode.effect_handle_begin (int 7 ∷ int 0 ∷ tuple [] ∷ [])
      ∷ ins Opcode.load_const (int 2 ∷ int 1 ∷ [])
      ∷ ins Opcode.effect_handle_end (int 7 ∷ int 3 ∷ [])
      ∷ [];
  terminator = leaves TerminatorOpcode.jump (int 0 ∷ []);
}

abbrev last_block : Block
last_block = record {
  id = 2;
  instructions = [];
  terminator = leaves TerminatorOpcode.return (int 1 ∷ []);
}

abbrev looping : Function
looping = record {
  name = 0;
  params = 9 ∷ [];
  register_count = 4;
  blocks = test_block ∷ loop_block ∷ last_block ∷ [];
  entry = 0;
  space_id = 0;
  rest_param = none;
}

abbrev program : Program
program = record { functions = looping ∷ []; main = 0 }

accepts : verify_mir program ≡ []
unfolding verify_mir Program.verify_functions verify_function Program.duplicate_blocks
    Program.verify_blocks Program.verify_block Program.verify_instructions Schema.verify_instruction
    Program.continuous_run Schema.verify_terminator Reach.verify_reachability
    Reach.unreachable_blocks Reach.walk Reach.enqueue Reach.successors Reach.block_by_id
    Reach.edge_count DefUse.all_defined DefUse.all_targets DefUse.block_exit DefUse.block_undefined
    DefUse.defined_by DefUse.flow DefUse.flow_block DefUse.flow_blocks DefUse.flow_fuel
    DefUse.flow_target DefUse.flow_targets DefUse.get DefUse.incoming_of DefUse.instructions_exit
    DefUse.instructions_undefined DefUse.report_blocks DefUse.undefined verify_def_use
    terminator_targets Pairing.check_program Pairing.handle_blocks Pairing.handle_instructions
    Pairing.m10_scope_nesting m9_effect_handle_pairing Pairing.scope_blocks
    Pairing.scope_instructions
accepts = refl

-- A return of a register that only one branch defines.
abbrev careless : Function
careless = record looping {
  blocks =
      test_block
      ∷ record loop_block { terminator = leaves TerminatorOpcode.jump (int 2 ∷ []) }
      ∷ record last_block { terminator = leaves TerminatorOpcode.return (int 3 ∷ []) }
      ∷ [];
}

finds_use : length (verify_function careless) ≡ 1
unfolding verify_function Program.duplicate_blocks Program.verify_blocks Program.verify_block
    Program.verify_instructions Schema.verify_instruction Program.continuous_run
    Schema.verify_terminator Reach.verify_reachability Reach.unreachable_blocks Reach.walk
    Reach.enqueue Reach.successors Reach.block_by_id Reach.edge_count DefUse.all_defined
    DefUse.all_targets DefUse.block_exit DefUse.block_undefined DefUse.defined_by DefUse.flow
    DefUse.flow_block DefUse.flow_blocks DefUse.flow_fuel DefUse.flow_target DefUse.flow_targets
    DefUse.get DefUse.incoming_of DefUse.instructions_exit DefUse.instructions_undefined
    DefUse.report_blocks DefUse.undefined verify_def_use terminator_targets
finds_use = refl

verify_mir-IsWellFormed_example : (0 < 1) × ((f : Function) → In f (looping ∷ []) → IsWellFormed f)
verify_mir-IsWellFormed_example = verify_mir-IsWellFormed program (ap (λ ds. errors ds) accepts)

unreachable_blocks_lem_example :
    In 5 (unreachable_blocks looping)
    ↔ (In 0 (ids looping.blocks) × In 5 (ids looping.blocks) × (¬ Reaches looping.blocks 0 5))
unreachable_blocks_lem_example = unreachable_blocks_lem looping 5

no_undefined_use : verify_def_use looping ≡ []
unfolding DefUse.all_defined DefUse.all_targets DefUse.block_exit DefUse.block_undefined
    DefUse.defined_by DefUse.flow DefUse.flow_block DefUse.flow_blocks DefUse.flow_fuel
    DefUse.flow_target DefUse.flow_targets DefUse.get DefUse.incoming_of DefUse.instructions_exit
    DefUse.instructions_undefined DefUse.report_blocks DefUse.undefined verify_def_use
    terminator_targets
no_undefined_use = refl

m9_effect_handle_pairing-Balanced_example :
    (m9_effect_handle_pairing looping ≡ []) ↔ Balanced (handle_events looping.blocks)
m9_effect_handle_pairing-Balanced_example = m9_effect_handle_pairing-Balanced looping

careless-IsAccepted : IsAccepted (verify_function careless)
unfolding verify_function Program.duplicate_blocks Program.verify_blocks Program.verify_block
    Program.verify_instructions Schema.verify_instruction Program.continuous_run
    Schema.verify_terminator Reach.verify_reachability Reach.unreachable_blocks Reach.walk
    Reach.enqueue Reach.successors Reach.block_by_id Reach.edge_count DefUse.all_defined
    DefUse.all_targets DefUse.block_exit DefUse.block_undefined DefUse.defined_by DefUse.flow
    DefUse.flow_block DefUse.flow_blocks DefUse.flow_fuel DefUse.flow_target DefUse.flow_targets
    DefUse.get DefUse.incoming_of DefUse.instructions_exit DefUse.instructions_undefined
    DefUse.report_blocks DefUse.undefined verify_def_use terminator_targets
careless-IsAccepted = refl

eliminate_dead-accepted_example :
    (bs : List Block) × (eliminate_dead careless ≡ some (record careless { blocks = bs }))
    × IsClean bs
eliminate_dead-accepted_example = eliminate_dead-accepted careless careless-IsAccepted

abbrev target_or : ℕ → Leave ℕ ℕ ℕ → ℕ
target_or d (goto id _ _) = id
target_or d (halt a) = d

target_inj : {x y v v' w w' : ℕ} → Path (Leave ℕ ℕ ℕ) (goto x v w) (goto y v' w') → x ≡ y
target_inj {x} e = ap (target_or x) e

abbrev answer_or : ℕ → Leave ℕ ℕ ℕ → ℕ
answer_or d (goto _ _ _) = d
answer_or d (halt a) = a

halt_inj : {x y : ℕ} → Path (Leave ℕ ℕ ℕ) (halt x) (halt y) → x ≡ y
halt_inj {x} e = ap (answer_or x) e

go_target : (ids : List ℕ) (v w id v' w' : ℕ) → go ids v w ≡ goto id v' w' → In id ids
unfolding go
go_target [] v w id v' w' e = cc
go_target (x ∷ ids) v w id v' w' e = inl (sym (target_inj e))

counting_keeps : KeepsTargets counting
counting_keeps t ρ w id v w' e =
    go_target (terminator_targets t) (total (terminator_uses t) ρ) w id v w' e

total_positive : (rs : List ℕ) (ρ : ℕ → ℕ) → 0 < total rs ρ
unfolding total
total_positive [] ρ = omega arith
total_positive (r ∷ rs) ρ = omega (arith, total_positive rs ρ)

halts_positive : (ids : List ℕ) (v w a : ℕ) → 0 < v → go ids v w ≡ halt a → 0 < a
unfolding go
halts_positive [] v w a h e = subst (λ (n : ℕ). 0 < n) (halt_inj e) (omega (arith, h))
halts_positive (x ∷ ids) v w a h e = cc

abbrev stop_answer : Step ℕ ℕ ℕ → ℕ
stop_answer (next v w) = 0
stop_answer (stop a) = a

stop_inj : {a b : ℕ} → Path (Step ℕ ℕ ℕ) (stop a) (stop b) → a ≡ b
stop_inj h = ap stop_answer h

loaded_positive :
    (i : Instruction) (w a : ℕ) (v : Option ℕ) → Semantics.loaded counting i w v ≡ stop a → 0 < a
loaded_positive i w a none e = subst (λ (n : ℕ). 0 < n) (stop_inj e) (omega arith)
loaded_positive i w a (some v) e = cc

stops_positive :
    (i : Instruction) (ρ : ℕ → ℕ) (w a : ℕ) → Semantics.exec counting i ρ w ≡ stop a → 0 < a
unfolding Semantics.exec
stops_positive i ρ w a e = elim (Option-cases (Semantics.load counting i.opcode)) [
  | inl z ↦ let k = rw z at e in cc
  | inr (f, z) ↦ loaded_positive i w a (f i.operands ρ w) (rw z at e)
]

counting_answers : Answers counting (λ a. 0 < a)
counting_answers = (
  λ i ρ w a e. stops_positive i ρ w a e,
  λ t ρ w a e.
      halts_positive (terminator_targets t) (total (terminator_uses t) ρ) w a
        (total_positive (terminator_uses t) ρ) e,
)

careless_ends : run counting 3 careless.blocks 0 (λ r. r) 0 ≡ some 4
unfolding run Semantics.visit Semantics.find_block Semantics.after Semantics.run_instructions
    Semantics.exec Semantics.enter go terminator_targets total terminator_uses Operands.written
    Operands.def uses
careless_ends = refl

-- The machine answers 0 where a block is missing.
run-stays_example : 0 < 4
run-stays_example =
    run-stays counting (λ a. 0 < a) careless 3 (λ r. r) 0 4 careless-IsAccepted counting_keeps
      counting_answers careless_ends

test-IsPlain : IsPlain test_block.terminator
unfolding Operands.terminator_register_positions
test-IsPlain p (inl e) a h = rw e at h
test-IsPlain p (inr k) a h = absurd k

loop-IsPlain : IsPlain loop_block.terminator
unfolding Operands.terminator_register_positions
loop-IsPlain p k a h = absurd k

last-IsPlain : IsPlain last_block.terminator
unfolding Operands.terminator_register_positions
last-IsPlain p (inl e) a h = rw e at h
last-IsPlain p (inr k) a h = absurd k

-- The parameter has its value, and every other register another one.
abbrev others : ℕ → ℕ
others r = if r == 0 then 0 else 40

others-Agree : Agree (param_defined looping) (λ r. r) others
others-Agree r (inl e) = rw e refl
others-Agree r (inr k) = absurd k

verify_def_use-run_example :
    run counting 5 looping.blocks looping.entry (λ r. r) 0
    ≡ run counting 5 looping.blocks looping.entry others 0
verify_def_use-run_example =
    verify_def_use-run counting looping test_block (loop_block ∷ last_block ∷ []) 5 (λ r. r) others
      0 refl refl (test-IsPlain, (loop-IsPlain, (last-IsPlain, tt))) no_undefined_use counting_keeps
      others-Agree
