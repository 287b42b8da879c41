-- ===== src/Lir/Node.antt =====
-- qy/ir/lir/node.py: instructions of the LIR. Operands are those of the MIR. An opcode that the
-- passes do not name is `other`, with a number for its string. Spans are left out.
use qy.Prelude.{ℕ, Bool, List}
use qy.Mir.Node.{Operand}

pub data Opcode : Type 0 where
  load_nil load_t load_int load_float load_str load_host load_env : Opcode
  ss_lookup slot_read slot_pending_effort slot_complete : Opcode
  move define_once store_local make_function make_macro : Opcode
  call call_builtin tail_call return append_result build_tuple apply runtime_eval : Opcode
  parallel_gather all_gather race_first cache_eval define_module : Opcode
  jump_if_false branch_nil raise_effect : Opcode
  cont_capture cont_copy cont_restore cont_inject : Opcode
  effect_unwind effect_dispatch handler_push handler_pop frame_enter frame_leave : Opcode
  ss_enter ss_leave ss_restore ss_copy : Opcode
  effect_perform effect_handle_begin effect_handle_end effect_resume : Opcode
  perform handle resume : Opcode
  jump enter_scope exit_scope defeffect from_import : Opcode
  other : ℕ → Opcode

pub record Instruction : Type 0 where
  pub opcode : Opcode
  pub operands : List Operand
  pub continuous : Bool
