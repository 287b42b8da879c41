-- ===== src/Mir/Verify/Readable.antt =====
-- Dead code elimination (qy/passes/optimize/dce.py) takes operands without a test of their number.
-- In a function that verify_mir accepts they are there.
use qy.Prelude.{ℕ, suc, ◌≤◌, ◌≡◌, refl, Option, some, List, [], ◌∷◌, ◌++◌, length, arith}
use qy.Mir.Node.{
  Operand, Opcode, append_result, call, define_once, move, store_local, TerminatorOpcode, branch,
  effect_perform, jump, raise_effect, return, tail_call, Instruction, Block, Function,
}
use qy.Mir.Dce
use qy.Mir.Dce.{
  opcode_uses, call_uses, tail_call_uses, reg_at, terminator_opcode_uses, instruction_uses,
  instructions_uses, block_uses, collect_used_registers, eliminate_dead,
}
use qy.Mir.Dce.Fixpoint.{eliminate_dead-IsClean, IsClean}
use qy.Mir.Verify.Problem.{Problem, IsAccepted, report_all, error}
use qy.Mir.Verify.Schema.{
  with_arity, verify_operands, verify_instruction, verify_exit, verify_terminator,
}
use qy.Mir.Verify.Registers.{append-nil}
use qy.Mir.Verify.Reach.{ids}
use qy.Mir.Verify.Program.{
  verify_instructions, verify_continuous_run, verify_block, verify_blocks, verify_function,
  duplicate_blocks, verify_entry,
}
use qy.Mir.Verify.Accepted.{IsAccepted-parts, accepted_report}

abbrev IsSome : {A : Type 0} → Option A → Type 0
IsSome {A} o = (a : A) × (o ≡ some a)

arity-length :
    (n : ℕ) (ops : List Operand) (rest : List Problem) → with_arity n ops rest ≡ [] → length ops ≡ n
arity-length n ops rest h = ground arith

first_operand : (ops : List Operand) (n : ℕ) → length ops ≡ suc n → IsSome (reg_at 0 ops)
first_operand [] n h = absurd (omega arith)
first_operand (a ∷ ops) n h = (_, refl)

second_operand : (ops : List Operand) (n : ℕ) → length ops ≡ n → 2 ≤ n → IsSome (reg_at 1 ops)
second_operand [] n h k = absurd (omega arith)
second_operand (a ∷ []) n h k = absurd (omega arith)
second_operand (a ∷ b ∷ ops) n h k = (_, refl)

call_operands : (ops : List Operand) → length ops ≡ 3 → IsSome (call_uses ops)
call_operands [] h = absurd (omega arith)
call_operands (a ∷ []) h = absurd (omega arith)
call_operands (a ∷ b ∷ []) h = absurd (omega arith)
call_operands (a ∷ b ∷ c ∷ []) h = (_, refl)
call_operands (a ∷ b ∷ c ∷ d ∷ ops) h = absurd (omega arith)

tail_operands : (ops : List Operand) → length ops ≡ 2 → IsSome (tail_call_uses ops)
tail_operands [] h = absurd (omega arith)
tail_operands (a ∷ []) h = absurd (omega arith)
tail_operands (a ∷ b ∷ []) h = (_, refl)
tail_operands (a ∷ b ∷ c ∷ ops) h = absurd (omega arith)

opcode-readable :
    (n : ℕ) (o : Opcode) (ops : List Operand)
    → verify_operands n o ops ≡ []
    → IsSome (opcode_uses o ops)
opcode-readable n append_result ops h = first_operand ops 0 (arity-length 1 ops _ h)
opcode-readable n move ops h = second_operand ops 2 (arity-length 2 ops _ h) (omega arith)
opcode-readable n store_local ops h = second_operand ops 2 (arity-length 2 ops _ h) (omega arith)
opcode-readable n define_once ops h = second_operand ops 2 (arity-length 2 ops _ h) (omega arith)
opcode-readable n call ops h = call_operands ops (arity-length 3 ops _ h)
opcode-readable n _ ops h = (_, refl)

exit-readable :
    (n : ℕ) (ids : List ℕ) (o : TerminatorOpcode) (ops : List Operand)
    → verify_exit n ids o ops ≡ []
    → IsSome (terminator_opcode_uses o ops)
exit-readable n ids return ops h = first_operand ops 0 (arity-length 1 ops _ h)
exit-readable n ids branch ops h = first_operand ops 2 (arity-length 3 ops _ h)
exit-readable n ids raise_effect ops h = second_operand ops 3 (arity-length 3 ops _ h) (omega arith)
exit-readable n ids tail_call ops h = tail_operands ops (arity-length 2 ops _ h)
exit-readable n ids effect_perform ops h = (_, refl)
exit-readable n ids jump ops h = (_, refl)

instructions-readable :
    (n : ℕ) (is : List Instruction) → verify_instructions n is ≡ [] → IsSome (instructions_uses is)
unfolding verify_instructions verify_instruction instructions_uses instruction_uses
instructions-readable n [] h = ([], refl)
instructions-readable n (i ∷ is) h =
    let (p, q) = append-nil (verify_instruction n i) (verify_instructions n is) h in
    let (us, e) = opcode-readable n i.opcode i.operands p in
    let (vs, g) = instructions-readable n is q in (us ++ vs, rw (e, g) refl)

block-readable : (f : Function) (b : Block) → verify_block f b ≡ [] → IsSome (block_uses b)
unfolding verify_block verify_terminator block_uses Dce.terminator_uses
block-readable f b h =
    let (p, q) = append-nil (verify_instructions f.register_count b.instructions) _ h in
    let (_, t) = append-nil (verify_continuous_run b) _ q in
    let (us, e) = instructions-readable f.register_count b.instructions p in
    let (vs, g) =
      exit-readable f.register_count (ids f.blocks) b.terminator.opcode b.terminator.operands t in
    (us ++ vs, rw (e, g) refl)

blocks-readable :
    (f : Function) (bs : List Block)
    → IsAccepted (verify_blocks f bs)
    → IsSome (collect_used_registers bs)
unfolding verify_blocks collect_used_registers
blocks-readable f [] h = ([], refl)
blocks-readable f (b ∷ bs) h =
    let (p, q) =
      IsAccepted-parts (report_all error (some f.name) (some b.id) (verify_block f b))
        (verify_blocks f bs) h in
    let (us, e) = block-readable f b (accepted_report _ _ (verify_block f b) p) in
    let (vs, g) = blocks-readable f bs q in (us ++ vs, rw (e, g) refl)

-- On a function in which _verify_function finds no error, dead code elimination raises no
-- exception and ends, with blocks in which nothing more is dead.
pub eliminate_dead-accepted :
    (f : Function)
    → IsAccepted (verify_function f)
    → (bs : List Block) × (eliminate_dead f ≡ some (record f { blocks = bs })) × IsClean bs
unfolding verify_function
eliminate_dead-accepted f h =
    let (_, h1) = IsAccepted-parts (duplicate_blocks f [] f.blocks) _ h in
    let (_, h2) = IsAccepted-parts (verify_entry f) _ h1 in
    let (r, _) = IsAccepted-parts (verify_blocks f f.blocks) _ h2 in
    let (us, e) = blocks-readable f f.blocks r in eliminate_dead-IsClean f us e
