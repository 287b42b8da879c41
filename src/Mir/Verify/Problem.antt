-- ===== src/Mir/Verify/Problem.antt =====
-- What verify_mir (qy/ir/mir/__init__.py, qy/ir/mir/predicates.py) reports. A diagnostic keeps its
-- severity, the function and the block that its message names, and in place of the message's text
-- the fault with the values that the message prints.
use qy.Prelude.Int.{ℤ}
use qy.Prelude.{ℕ, ◌≡◌, Option, List, [], map, filterb, Bool, true, false}
use qy.Mir.Node.{Opcode}

pub data Problem : Type 0 where
  main_out_of_range : ℕ → ℕ → Problem
  duplicate_block : Problem
  missing_entry : ℕ → Problem
  wrong_arity : ℕ → ℕ → Problem
  too_few_operands : Problem
  no_symbol no_int no_tuple no_bool no_space_id no_register no_block : Problem
  out_of_range_register missing_block : ℕ → Problem
  negative_register negative_block : ℕ → Problem
  break_is_continuous break_before break_after : Opcode → Problem
  unreachable : Problem
  use_before_definition : ℕ → Problem
  unmatched_handle_end : ℤ → Problem
  mismatched_handle_end : ℤ → ℤ → Problem
  unclosed_handles : List ℤ → Problem
  unmatched_exit : Problem
  unclosed_scopes : ℕ → Problem

pub data Severity : Type 0 where
  error warning : Severity

pub record Diagnostic : Type 0 where
  pub severity : Severity
  pub function : Option ℕ
  pub block : Option ℕ
  pub problem : Problem

abbrev pub report : Severity → Option ℕ → Option ℕ → Problem → Diagnostic
report s f b p = record { severity = s; function = f; block = b; problem = p }

abbrev pub report_all : Severity → Option ℕ → Option ℕ → List Problem → List Diagnostic
report_all s f b ps = map (report s f b) ps

abbrev is_error : Severity → Bool
is_error error = true
is_error warning = false

-- The diagnostics that are errors.
abbrev pub errors : List Diagnostic → List Diagnostic
errors ds = filterb (λ d. is_error d.severity) ds

-- No diagnostic is an error.
abbrev pub IsAccepted : List Diagnostic → Type 0
IsAccepted ds = errors ds ≡ []
