-- ===== src/Mir/Verify/Schema.antt =====
-- qy/ir/mir/__init__.py: the checks of the operands of one instruction (_verify_instruction) and of
-- one terminator (_verify_terminator). Opcodes that MIROpcode does not name, and a function with a
-- negative number of registers, are not in the model.
use qy.Prelude.{ℕ, ◌==◌, ltb, List, [], ◌∷◌, ◌++◌, length, get_elem?, some, none, if◌then◌else◌}
use qy.Prelude.Members.{elem}
use qy.Mir.Node.{
  Item, reg, thing, Operand, int, boolean, bit, tuple, object, symbol, minus, Opcode, append_result,
  all_gather, apply, build_tuple, cache_eval, call, defeffect, define_module, define_once,
  effect_handle_begin, effect_handle_end, effect_resume, enter_scope, exit_scope, from_import,
  load_const, load_host, load_env, make_function, make_macro, move, parallel_gather, race_first,
  runtime_eval, store_local, TerminatorOpcode, branch, effect_perform, jump, raise_effect, return,
  tail_call, Instruction, Terminator, nothing,
}
use qy.Mir.Verify.Problem.{
  Problem, wrong_arity, too_few_operands, no_symbol, no_int, no_tuple, no_bool, no_space_id,
  no_register, no_block, out_of_range_register, missing_block, negative_register, negative_block,
}

-- _check_operand_arity, with the checks that follow where it holds.
abbrev pub with_arity : ℕ → List Operand → List Problem → List Problem
with_arity n ops rest = if length ops == n then rest else wrong_arity n (length ops) ∷ []

abbrev pub when_some : List Operand → List Problem → List Problem
when_some [] rest = too_few_operands ∷ []
when_some (_ ∷ _) rest = rest

-- The check of operands[i]; it stands only where there is one.
abbrev pub at : ℕ → (Operand → List Problem) → List Operand → List Problem
at i check ops = elim (get_elem? ops i) [ some o ↦ check o | none ↦ [] ]

abbrev pub check_symbol_operand : Operand → List Problem
check_symbol_operand (object (symbol _)) = []
check_symbol_operand _ = no_symbol ∷ []

abbrev pub check_int_operand : Operand → List Problem
check_int_operand (int _) = []
check_int_operand (boolean _) = []
check_int_operand (object (minus _)) = []
check_int_operand _ = no_int ∷ []

abbrev pub check_space_id_operand : Operand → List Problem
check_space_id_operand (int _) = []
check_space_id_operand (object (minus _)) = []
check_space_id_operand _ = no_space_id ∷ []

abbrev pub check_tuple_operand : Operand → List Problem
check_tuple_operand (tuple _) = []
check_tuple_operand _ = no_tuple ∷ []

-- `isinstance(operand, bool)`
abbrev pub check_bool : Operand → List Problem
check_bool (boolean _) = []
check_bool _ = no_bool ∷ []

module _ (register_count : ℕ) where
  abbrev pub check_range : ℕ → List Problem
  check_range r = if ltb r register_count then [] else out_of_range_register r ∷ []

  abbrev pub check_register : Operand → List Problem
  check_register (int r) = check_range r
  check_register (boolean b) = check_range (bit b)
  check_register (object (minus n)) = negative_register n ∷ []
  check_register _ = no_register ∷ []

  abbrev pub check_item : Item → List Problem
  check_item (reg r) = check_range r
  check_item (thing _) = no_register ∷ []

  abbrev pub check_items : List Item → List Problem
  check_items [] = []
  check_items (item ∷ items) = check_item item ++ check_items items

  abbrev pub check_register_tuple : Operand → List Problem
  check_register_tuple (tuple items) = check_items items
  check_register_tuple _ = no_tuple ∷ []

  abbrev pub check_registers : List Operand → List Problem
  check_registers [] = []
  check_registers (o ∷ ops) = check_register o ++ check_registers ops

  abbrev pub first_register : List Operand → List Problem
  first_register ops = when_some ops (at 0 check_register ops)

  abbrev pub two_registers : List Operand → List Problem
  two_registers ops = with_arity 2 ops (at 0 check_register ops ++ at 1 check_register ops)

  abbrev pub three_registers : List Operand → List Problem
  three_registers ops =
      with_arity 3 ops
        (at 0 check_register ops ++ (at 1 check_register ops ++ at 2 check_register ops))

  abbrev pub bind_symbol : List Operand → List Problem
  bind_symbol ops = with_arity 2 ops (at 0 check_symbol_operand ops ++ at 1 check_register ops)

  abbrev pub register_and_int : List Operand → List Problem
  register_and_int ops = with_arity 2 ops (at 0 check_register ops ++ at 1 check_int_operand ops)

  abbrev pub verify_operands : Opcode → List Operand → List Problem
  verify_operands append_result ops = with_arity 1 ops (at 0 check_register ops)
  verify_operands all_gather ops = first_register ops
  verify_operands parallel_gather ops = first_register ops
  verify_operands race_first ops = first_register ops
  verify_operands cache_eval ops = with_arity 3 ops (at 0 check_register ops)
  verify_operands build_tuple ops = when_some ops (check_registers ops)
  verify_operands apply ops = three_registers ops
  verify_operands call ops =
      with_arity 3 ops
        (at 0 check_register ops ++ (at 1 check_register ops ++ at 2 check_register_tuple ops))
  verify_operands define_module ops =
      with_arity 4 ops
        (at 0 check_register ops ++ (at 1 check_symbol_operand ops ++ at 2 check_int_operand ops))
  verify_operands defeffect ops =
      with_arity 2 ops (at 0 check_symbol_operand ops ++ at 1 check_bool ops)
  verify_operands effect_handle_begin ops =
      with_arity 3 ops
        (at 0 check_int_operand ops ++ (at 1 check_int_operand ops ++ at 2 check_tuple_operand ops))
  verify_operands effect_handle_end ops =
      with_arity 2 ops (at 0 check_int_operand ops ++ at 1 check_register ops)
  verify_operands effect_resume ops = three_registers ops
  verify_operands from_import ops =
      with_arity 2 ops (at 0 check_symbol_operand ops ++ at 1 check_tuple_operand ops)
  verify_operands load_host ops = with_arity 2 ops (at 0 check_register ops)
  verify_operands load_const ops = register_and_int ops
  verify_operands load_env ops =
      with_arity 2 ops (at 0 check_register ops ++ at 1 check_symbol_operand ops)
  verify_operands make_function ops = register_and_int ops
  verify_operands make_macro ops = with_arity 4 ops (
      at 0 check_register ops
      ++ (at 1 check_symbol_operand ops
          ++ (at 2 check_tuple_operand ops ++ at 3 check_tuple_operand ops)))
  verify_operands move ops = two_registers ops
  verify_operands runtime_eval ops = two_registers ops
  verify_operands store_local ops = bind_symbol ops
  verify_operands define_once ops = bind_symbol ops
  verify_operands enter_scope ops = with_arity 1 ops (at 0 check_space_id_operand ops)
  verify_operands exit_scope ops = with_arity 1 ops (at 0 check_space_id_operand ops)

  unfoldable pub verify_instruction : Instruction → List Problem
  verify_instruction i = verify_operands i.opcode i.operands

  -- `None` is no register, and `RETURN` takes it.
  abbrev pub check_result : Operand → List Problem
  check_result (object nothing) = []
  check_result o = check_register o

  module _ (block_ids : List ℕ) where
    abbrev pub check_target : ℕ → List Problem
    check_target id = if elem id block_ids then [] else missing_block id ∷ []

    -- No block has a negative id.
    abbrev pub check_block_target : Operand → List Problem
    check_block_target (int id) = check_target id
    check_block_target (boolean b) = check_target (bit b)
    check_block_target (object (minus n)) = negative_block n ∷ []
    check_block_target _ = no_block ∷ []

    abbrev pub verify_exit : TerminatorOpcode → List Operand → List Problem
    verify_exit jump ops = with_arity 1 ops (at 0 check_block_target ops)
    verify_exit branch ops =
        with_arity 3 ops
          (at 0 check_register ops ++ (at 1 check_block_target ops ++ at 2 check_block_target ops))
    verify_exit return ops = with_arity 1 ops (at 0 check_result ops)
    verify_exit raise_effect ops =
        with_arity 3 ops
          (at 0 check_symbol_operand ops ++ (at 1 check_register ops ++ at 2 check_bool ops))
    verify_exit effect_perform ops = with_arity 5 ops (
        at 0 check_register ops
        ++ (at 1 check_symbol_operand ops
            ++ (at 2 check_register ops ++ (at 3 check_block_target ops ++ at 4 check_bool ops))))
    verify_exit tail_call ops =
        with_arity 2 ops (at 0 check_register ops ++ at 1 check_register_tuple ops)

    unfoldable pub verify_terminator : Terminator → List Problem
    verify_terminator t = verify_exit t.opcode t.operands
