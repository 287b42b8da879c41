-- ===== src/Mir/Verify/Pairing.antt =====
-- qy/ir/mir/predicates.py: the pairs of EFFECT_HANDLE_BEGIN and EFFECT_HANDLE_END, and of
-- ENTER_SCOPE and EXIT_SCOPE, over the blocks of a function in their order.
use qy.Prelude.{ℕ, zero, suc, Option, none, some, List, [], ◌∷◌, ◌++◌, if◌then◌else◌}
use qy.Mir.Node.{
  Operand, as_int, Opcode, effect_handle_begin, effect_handle_end, enter_scope, exit_scope,
  Instruction, Block, Function,
}
use qy.Prelude.Int.{ℤ, pos, same_int}
use qy.Mir.Verify.Problem.{
  Problem, Diagnostic, report, error, warning, unmatched_handle_end, mismatched_handle_end,
  unclosed_handles, unmatched_exit, unclosed_scopes,
}

pub data Event : Type 0 where
  begins : ℤ → Event
  ends : ℤ → Event

abbrev pub event_of : (ℤ → Event) → Option ℤ → Option Event
event_of c none = none
event_of c (some h) = some (c h)

abbrev pub handle_id : List Operand → Option ℤ
handle_id [] = none
handle_id (o ∷ _) = as_int o

-- A handle id that is no integer is passed over.
abbrev pub handle_of : Opcode → List Operand → Option Event
handle_of effect_handle_begin ops = event_of begins (handle_id ops)
handle_of effect_handle_end ops = event_of ends (handle_id ops)
handle_of _ ops = none

-- The stack, its top first, and what has been reported.
pub record Stack : Type 0 where
  pub handles : List ℤ
  pub reported : List Diagnostic

abbrev pub tell : Diagnostic → Stack → Stack
tell d s = record s { reported = s.reported ++ (d ∷ []) }

abbrev pub push_handle : ℤ → Stack → Stack
push_handle h s = record s { handles = h ∷ s.handles }

abbrev pub end_handle : (Problem → Diagnostic) → ℤ → List ℤ → Stack → Stack
end_handle say h [] s = tell (say (unmatched_handle_end h)) s
end_handle say h (top ∷ handles) s =
    if same_int top h
    then record s { handles = handles }
    else tell (say (mismatched_handle_end h top)) s

abbrev pub handle_event : (Problem → Diagnostic) → Option Event → Stack → Stack
handle_event say none s = s
handle_event say (some (begins h)) s = push_handle h s
handle_event say (some (ends h)) s = end_handle say h s.handles s

unfoldable pub handle_instructions : (Problem → Diagnostic) → List Instruction → Stack → Stack
handle_instructions say [] s = s
handle_instructions say (i ∷ is) s =
    handle_instructions say is (handle_event say (handle_of i.opcode i.operands) s)

unfoldable pub handle_blocks : Function → List Block → Stack → Stack
handle_blocks f [] s = s
handle_blocks f (b ∷ bs) s =
    handle_blocks f bs
      (handle_instructions (report error (some f.name) (some b.id)) b.instructions s)

abbrev pub reverse_onto : List ℤ → List ℤ → List ℤ
reverse_onto [] ys = ys
reverse_onto (x ∷ xs) ys = reverse_onto xs (x ∷ ys)

-- The message prints the stack from its bottom.
abbrev pub close_handles : Function → List ℤ → List Diagnostic → List Diagnostic
close_handles f [] reported = reported
close_handles f (h ∷ handles) reported =
    reported
    ++ (report error (some f.name) none (unclosed_handles (reverse_onto (h ∷ handles) [])) ∷ [])

unfoldable pub m9_effect_handle_pairing : Function → List Diagnostic
m9_effect_handle_pairing f =
    let s = handle_blocks f f.blocks (record { handles = []; reported = [] }) in
    close_handles f s.handles s.reported

abbrev pub scope_of : Opcode → Option Event
scope_of enter_scope = some (begins (pos 0))
scope_of exit_scope = some (ends (pos 0))
scope_of _ = none

-- The depth is a number: the source sets it back to 0 where it falls below.
pub record Depth : Type 0 where
  pub depth : ℕ
  pub reported : List Diagnostic

abbrev pub leave_scope : Diagnostic → ℕ → Depth → Depth
leave_scope d zero s = record { depth = 0; reported = s.reported ++ (d ∷ []) }
leave_scope d (suc n) s = record s { depth = n }

abbrev pub scope_event : Diagnostic → Option Event → Depth → Depth
scope_event d none s = s
scope_event d (some (begins _)) s = record s { depth = suc s.depth }
scope_event d (some (ends _)) s = leave_scope d s.depth s

unfoldable pub scope_instructions : Diagnostic → List Instruction → Depth → Depth
scope_instructions d [] s = s
scope_instructions d (i ∷ is) s = scope_instructions d is (scope_event d (scope_of i.opcode) s)

unfoldable pub scope_blocks : Function → List Block → Depth → Depth
scope_blocks f [] s = s
scope_blocks f (b ∷ bs) s =
    scope_blocks f bs (
      scope_instructions (report warning (some f.name) (some b.id) unmatched_exit) b.instructions s)

abbrev pub close_scopes : Function → ℕ → List Diagnostic → List Diagnostic
close_scopes f zero reported = reported
close_scopes f (suc n) reported =
    reported ++ (report warning (some f.name) none (unclosed_scopes (suc n)) ∷ [])

unfoldable pub m10_scope_nesting : Function → List Diagnostic
m10_scope_nesting f =
    let s = scope_blocks f f.blocks (record { depth = 0; reported = [] }) in
    close_scopes f s.depth s.reported

unfoldable pub check_program : List Function → List Diagnostic
check_program [] = []
check_program (f ∷ fs) = m9_effect_handle_pairing f ++ m10_scope_nesting f ++ check_program fs
