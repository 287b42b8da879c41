-- ===== src/Mir/Verify/Program.antt =====
-- qy/ir/mir/__init__.py: _verify_continuous_run, _verify_function and verify_mir.
use qy.Prelude.{
  ℕ, Bool, true, false, Option, none, some, List, [], ◌∷◌, ◌++◌, length, ltb, if◌then◌else◌,
}
use qy.Prelude.Members.{elem}
use qy.Mir.Node.{
  Opcode, all_gather, cache_eval, defeffect, define_module, effect_handle_begin, effect_handle_end,
  effect_resume, enter_scope, exit_scope, from_import, parallel_gather, race_first, runtime_eval,
  Instruction, Block, Function,
}
use qy.Mir.Verify.Problem.{
  Problem, Diagnostic, report, report_all, error, duplicate_block, missing_entry, main_out_of_range,
  break_is_continuous, break_before, break_after,
}
use qy.Mir.Verify.Schema.{verify_instruction, verify_terminator}
use qy.Mir.Verify.Reach.{ids, verify_reachability}
use qy.Mir.Verify.DefUse.{verify_def_use}
use qy.Mir.Verify.Pairing.{check_program}

-- _CONTINUOUS_BREAK_OPCODES
abbrev pub breaks : Opcode → Bool
breaks enter_scope = true
breaks exit_scope = true
breaks effect_handle_begin = true
breaks effect_handle_end = true
breaks effect_resume = true
breaks defeffect = true
breaks define_module = true
breaks from_import = true
breaks runtime_eval = true
breaks cache_eval = true
breaks all_gather = true
breaks parallel_gather = true
breaks race_first = true
breaks _ = false

abbrev pub if_breaks : (Opcode → Problem) → Opcode → List Problem
if_breaks problem o = if breaks o then problem o ∷ [] else []

abbrev pub previous_breaks : Option Opcode → List Problem
previous_breaks none = []
previous_breaks (some o) = if_breaks break_before o

abbrev pub next_breaks : List Instruction → List Problem
next_breaks [] = []
next_breaks (i ∷ _) = if_breaks break_after i.opcode

-- From the instruction behind `previous` on.
unfoldable pub continuous_run : Option Opcode → List Instruction → List Problem
continuous_run previous [] = []
continuous_run previous (i ∷ is) =
    (if i.continuous
      then if_breaks break_is_continuous i.opcode ++ (previous_breaks previous ++ next_breaks is)
      else [])
    ++ continuous_run (some i.opcode) is

abbrev pub verify_continuous_run : Block → List Problem
verify_continuous_run b = continuous_run none b.instructions

-- The first loop, with the ids that it has met.
unfoldable pub duplicate_blocks : Function → List ℕ → List Block → List Diagnostic
duplicate_blocks f seen [] = []
duplicate_blocks f seen (b ∷ bs) =
    let again = duplicate_blocks f seen bs in
    let fresh = duplicate_blocks f (b.id ∷ seen) bs in
    if elem b.id seen then report error (some f.name) (some b.id) duplicate_block ∷ again else fresh

unfoldable pub verify_instructions : ℕ → List Instruction → List Problem
verify_instructions count [] = []
verify_instructions count (i ∷ is) = verify_instruction count i ++ verify_instructions count is

unfoldable pub verify_block : Function → Block → List Problem
verify_block f b =
    verify_instructions f.register_count b.instructions
    ++ (verify_continuous_run b ++ verify_terminator f.register_count (ids f.blocks) b.terminator)

unfoldable pub verify_blocks : Function → List Block → List Diagnostic
verify_blocks f [] = []
verify_blocks f (b ∷ bs) =
    report_all error (some f.name) (some b.id) (verify_block f b) ++ verify_blocks f bs

abbrev pub verify_entry : Function → List Diagnostic
verify_entry f =
    if elem f.entry (ids f.blocks)
    then []
    else report error (some f.name) none (missing_entry f.entry) ∷ []

unfoldable pub verify_function : Function → List Diagnostic
verify_function f =
    duplicate_blocks f [] f.blocks
    ++ (verify_entry f ++ (verify_blocks f f.blocks ++ (verify_reachability f ++ verify_def_use f)))

unfoldable pub verify_functions : List Function → List Diagnostic
verify_functions [] = []
verify_functions (f ∷ fs) = verify_function f ++ verify_functions fs

-- The functions of a program and the index of its main one. The index is not negative.
pub record Program : Type 0 where
  pub functions : List Function
  pub main : ℕ

abbrev pub main_check : Program → List Diagnostic
main_check p =
    if ltb p.main (length p.functions)
    then []
    else report error none none (main_out_of_range p.main (length p.functions)) ∷ []

unfoldable pub verify_mir : Program → List Diagnostic
verify_mir p = main_check p ++ (verify_functions p.functions ++ check_program p.functions)
