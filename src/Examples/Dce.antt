-- ===== src/Examples/Dce.antt =====
-- Dead code elimination of a small function, on a small machine.
use qy.Prelude.{
  Option, ltb, if◌then◌else◌, ℕ, ◌+◌, ◌≡◌, refl, ap, inl, inr, false, none, some, List, [], ◌∷◌,
  arith,
}
use qy.Prelude.Members.{In}
use qy.Mir.Node.{
  reg, Operand, int, tuple, object, symbol, Opcode, Instruction, Terminator, TerminatorOpcode,
  Block, Function,
}
use qy.Mir.Operands
use qy.Mir.Operands.{uses, terminator_uses, terminator_targets}
use qy.Mir.Semantics
use qy.Mir.Semantics.{Step, next, Leave, goto, halt, Agree, Machine, run}
use qy.Mir.Dce.{
  side_effect_free, instruction_uses, collect_used_registers, eliminate_dead, finds_dead,
}
use qy.Mir.Dce
use qy.Mir.Dce.Cover.{instruction_uses-Subset}
use qy.Mir.Dce.CoverTerminator.{terminator_uses-Subset, IsPlain}
use qy.Mir.Dce.Preserves.{IsAsBefore, eliminate_dead-preserves}
use qy.Mir.Dce.Fixpoint.{eliminate_dead-IsClean, IsClean}

abbrev sum : List ℕ → ℕ
sum [] = 0
sum (n ∷ ns) = n + sum ns

unfoldable pub total : List ℕ → (ℕ → ℕ) → ℕ
total [] ρ = 1
total (r ∷ rs) ρ = ρ r + total rs ρ

pub total-Agree : (rs : List ℕ) (ρ ρ' : ℕ → ℕ) → Agree rs ρ ρ' → total rs ρ ≡ total rs ρ'
unfolding total
total-Agree [] ρ ρ' h = refl
total-Agree (r ∷ rs) ρ ρ' h =
    omega (arith, h r (inl refl), total-Agree rs ρ ρ' (λ q k. h q (inr k)))

unfoldable pub go : List ℕ → ℕ → ℕ → Leave ℕ ℕ ℕ
go [] v w = halt (v + w)
go (id ∷ _) v w = goto id v w

-- Calls and effects give the sum of what they read, and are counted in the world; a symbol is
-- bound if its number is below 10.
abbrev bound : Operand → Option ℕ
bound (object (symbol s)) = if ltb s 10 then some s else none
bound _ = none

abbrev pub counting : Machine
counting = record {
  Value = ℕ;
  World = ℕ;
  Answer = ℕ;
  lost = λ id. 0;
  raised = λ i. 404;
  host = λ o. 1;
  constant = λ o. some 7;
  resolve = λ o w. bound o;
  closure = λ o w. some w;
  macro_value = 2;
  tuple_of = λ vs. sum vs;
  other = λ i ρ w. next (total (uses i) ρ) (w + 1);
  leave = λ t ρ w. go (terminator_targets t) (total (terminator_uses t) ρ) w;
  other_reads = λ i ρ ρ' w h. ap (λ (v : ℕ). next v (w + 1)) (total-Agree (uses i) ρ ρ' h);
  leave_reads = λ t ρ ρ' w h.
      ap (λ (v : ℕ). go (terminator_targets t) v w) (total-Agree (terminator_uses t) ρ ρ' h);
}

abbrev ins : Opcode → List Operand → Instruction
ins o ops = record { opcode = o; operands = ops; continuous = false }

abbrev ret : ℕ → Terminator
ret r = record { opcode = TerminatorOpcode.return; operands = int r ∷ [] }

-- r1 = constant; r2 = r1; r3 = r2; r4 = r1(r0); return r4. The second and third are dead, the
-- second only once the third is gone.
abbrev body : List Instruction
body =
    ins Opcode.load_const (int 1 ∷ int 0 ∷ [])
    ∷ ins Opcode.move (int 2 ∷ int 1 ∷ [])
    ∷ ins Opcode.move (int 3 ∷ int 2 ∷ [])
    ∷ ins Opcode.call (int 4 ∷ int 1 ∷ tuple (reg 0 ∷ []) ∷ [])
    ∷ []

abbrev kept : List Instruction
kept =
    ins Opcode.load_const (int 1 ∷ int 0 ∷ [])
    ∷ ins Opcode.call (int 4 ∷ int 1 ∷ tuple (reg 0 ∷ []) ∷ [])
    ∷ []

abbrev of_instructions : List Instruction → Function
of_instructions is = record {
  name = 0;
  params = 0 ∷ [];
  register_count = 5;
  blocks = record { id = 0; instructions = is; terminator = ret 4 } ∷ [];
  entry = 0;
  space_id = 0;
  rest_param = none;
}

two_rounds : eliminate_dead (of_instructions body) ≡ some (of_instructions kept)
unfolding eliminate_dead Dce.eliminate_blocks Dce.collect_used_registers Dce.block_uses
    Dce.instructions_uses Dce.instruction_uses Dce.terminator_uses Dce.sweep Dce.sweep_block
    Dce.finds_dead Dce.is_dead Dce.instruction_count
two_rounds = refl

ret-IsPlain : IsPlain (ret 4)
unfolding Operands.terminator_register_positions
ret-IsPlain p (inl e) a h = rw e at h
ret-IsPlain p (inr k) a h = absurd k

eliminate_dead-preserves_example :
    IsAsBefore counting
      (run counting 1 (of_instructions kept).blocks 0 (λ r. r) 0)
      (run counting 1 (of_instructions body).blocks 0 (λ r. r) 0)
eliminate_dead-preserves_example =
    eliminate_dead-preserves counting (of_instructions body) (of_instructions kept) 1 0 (λ r. r) 0
      (ret-IsPlain, tt) two_rounds

-- A load of an unbound symbol whose register is not used: before the pass the function raises, behind
-- it it does not.
abbrev unbound : List Instruction
unbound =
    ins Opcode.load_env (int 2 ∷ object (symbol 11) ∷ [])
    ∷ ins Opcode.load_const (int 4 ∷ int 0 ∷ [])
    ∷ []

abbrev unbound_kept : List Instruction
unbound_kept = ins Opcode.load_const (int 4 ∷ int 0 ∷ []) ∷ []

drops_unbound :
    (eliminate_dead (of_instructions unbound) ≡ some (of_instructions unbound_kept))
    × (run counting 1 (of_instructions unbound).blocks 0 (λ r. r) 0 ≡ some 404)
    × (run counting 1 (of_instructions unbound_kept).blocks 0 (λ r. r) 0 ≡ some 8)
unfolding eliminate_dead Dce.eliminate_blocks collect_used_registers Dce.block_uses
    Dce.instructions_uses instruction_uses Dce.terminator_uses finds_dead Dce.is_dead
    Dce.instruction_count Dce.sweep Dce.sweep_block run Semantics.visit Semantics.find_block
    Semantics.after Semantics.run_instructions Semantics.exec Operands.def
    Operands.register_def_position Operands.written Semantics.enter go total
    Operands.terminator_targets Operands.terminator_uses Operands.terminator_register_positions
    Operands.terminator_register_def_position
drops_unbound = (refl, refl, refl)

reads_all : collect_used_registers (of_instructions body).blocks ≡ some (1 ∷ 2 ∷ 1 ∷ 0 ∷ 4 ∷ [])
unfolding collect_used_registers Dce.block_uses Dce.instructions_uses Dce.instruction_uses
    Dce.terminator_uses
reads_all = refl

eliminate_dead-IsClean_example :
    (bs : List Block) × (eliminate_dead (of_instructions body)
      ≡ some (record (of_instructions body) { blocks = bs }))
    × IsClean bs
eliminate_dead-IsClean_example =
    eliminate_dead-IsClean (of_instructions body) (1 ∷ 2 ∷ 1 ∷ 0 ∷ 4 ∷ []) reads_all

abbrev call_instruction : Instruction
call_instruction = ins Opcode.call (int 4 ∷ int 1 ∷ tuple (reg 0 ∷ []) ∷ [])

call_reads : instruction_uses call_instruction ≡ some (1 ∷ 0 ∷ [])
unfolding instruction_uses
call_reads = refl

instruction_uses-Subset_example : In {A = ℕ} 0 (1 ∷ 0 ∷ [])
unfolding uses
instruction_uses-Subset_example =
    instruction_uses-Subset call_instruction (1 ∷ 0 ∷ []) call_reads 0 (inr (inl refl))

ret_reads : Dce.terminator_uses (ret 4) ≡ some (4 ∷ [])
unfolding Dce.terminator_uses
ret_reads = refl

terminator_uses-Subset_example : In {A = ℕ} 4 (4 ∷ [])
unfolding terminator_uses
terminator_uses-Subset_example =
    terminator_uses-Subset (ret 4) (4 ∷ []) ret-IsPlain ret_reads 4 (inl refl)
