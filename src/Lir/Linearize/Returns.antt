-- ===== src/Lir/Linearize/Returns.antt =====
-- qy/passes/lir/linearize.py: linearize_function returns where every operand is as it should be.
use qy.Prelude.{
  ℕ, ◌≡◌, refl, sym, ap, subst, ◌∙◌, Option, none, some, List, [], ◌∷◌, ◌++◌, ◌>>=◌, >>=-eq-some,
}
use qy.Mir.Node as Mir
use qy.Mir.Node.{Operand, Block, Function}
use qy.Lir.Node.{Instruction}
use qy.Lir.Linearize.{
  lower_instruction, Patch, Offset, Emitted, append, block_id, emit_opcode, emit_terminator,
  emit_instructions, begin_block, emit_blocks, offset_of, patch_at, patch_jumps, linearize_function,
}
use qy.Lir.Linearize.Code.{lower_all, target_index, exit_code, layout, code_of}
use qy.Lir.Linearize.Layout.{emit-Blocks, code_of-linearize_function}

-- Every patch has a target whose offset is known.
unfoldable Found : List Offset → List Patch → Type 0
Found offsets [] = Unit
Found offsets (p ∷ ps) = ((o : ℕ) × (offset_of p.target_block offsets ≡ some o)) × Found offsets ps

append-Found :
    (offsets : List Offset) (ps : List Patch) (p : Patch) (o : ℕ)
    → Found offsets ps
    → offset_of p.target_block offsets ≡ some o
    → Found offsets (ps ++ (p ∷ []))
unfolding Found
append-Found offsets [] p o t q = ((o, q), tt)
append-Found offsets (x ∷ ps) p o (a, t) q = (a, append-Found offsets ps p o t q)

patch_jumps-Found :
    (offsets : List Offset) (ps : List Patch) (is : List Instruction)
    → Found offsets ps
    → (out : List Instruction) × (patch_jumps ps offsets is ≡ some out)
unfolding Found patch_jumps
patch_jumps-Found offsets [] is t = (is, refl)
patch_jumps-Found offsets (p ∷ ps) is ((o, q), t) =
    let (out, r) = patch_jumps-Found offsets ps (patch_at o p.instruction_index is) t in
    (out, rw q r)

-- A target that has an index is a block whose offset is known.
target_index-some :
    (offsets : List Offset) (target t : Operand)
    → target_index offsets target ≡ some t
    → (id : ℕ) × (block_id target ≡ some id) × (o : ℕ) × (offset_of id offsets ≡ some o)
target_index-some offsets target t h =
    let (id, q, h') = >>=-eq-some (block_id target) _ h in
    let (o, r, _) = >>=-eq-some (offset_of id offsets) _ h' in (id, q, o, r)

-- What a terminator or a block leaves.
abbrev Emits : List Offset → Option Emitted → Type 0
Emits offsets result = (e' : Emitted) × (result ≡ some e') × Found offsets e'.patches

after-Emits :
    (offsets : List Offset) (m : Option ℕ) (id : ℕ) (f : ℕ → Option Emitted)
    → m ≡ some id
    → Emits offsets (f id)
    → Emits offsets (m >>= f)
after-Emits offsets m id f q t = subst (λ (k : Option ℕ). Emits offsets (k >>= f)) (sym q) t

jump-Emits :
    (offsets : List Offset) (ops : List Operand) (es : List Instruction) (e : Emitted)
    → exit_code offsets Mir.jump ops ≡ some es
    → Found offsets e.patches
    → Emits offsets (emit_opcode Mir.jump ops e)
jump-Emits offsets [] es e h t = cc
jump-Emits offsets (_ ∷ _ ∷ _) es e h t = cc
jump-Emits offsets (target ∷ []) es e h t =
    let (x, q, _) = >>=-eq-some (target_index offsets target) _ h in
    let (id, r, o, s) = target_index-some offsets target x q in
    after-Emits offsets (block_id target) id _ r (_, refl, append-Found offsets e.patches _ o t s)

perform-Emits :
    (offsets : List Offset) (ops : List Operand) (es : List Instruction) (e : Emitted)
    → exit_code offsets Mir.effect_perform ops ≡ some es
    → Found offsets e.patches
    → Emits offsets (emit_opcode Mir.effect_perform ops e)
perform-Emits offsets [] es e h t = cc
perform-Emits offsets (_ ∷ []) es e h t = cc
perform-Emits offsets (_ ∷ _ ∷ []) es e h t = cc
perform-Emits offsets (_ ∷ _ ∷ _ ∷ []) es e h t = cc
perform-Emits offsets (_ ∷ _ ∷ _ ∷ _ ∷ []) es e h t = cc
perform-Emits offsets (_ ∷ _ ∷ _ ∷ _ ∷ _ ∷ _ ∷ _) es e h t = cc
perform-Emits offsets (_ ∷ _ ∷ _ ∷ target ∷ _ ∷ []) es e h t =
    let (x, q, _) = >>=-eq-some (target_index offsets target) _ h in
    let (id, r, o, s) = target_index-some offsets target x q in
    after-Emits offsets (block_id target) id _ r (_, refl, append-Found offsets e.patches _ o t s)

branch-Emits :
    (offsets : List Offset) (ops : List Operand) (es : List Instruction) (e : Emitted)
    → exit_code offsets Mir.branch ops ≡ some es
    → Found offsets e.patches
    → Emits offsets (emit_opcode Mir.branch ops e)
branch-Emits offsets [] es e h t = cc
branch-Emits offsets (_ ∷ []) es e h t = cc
branch-Emits offsets (_ ∷ _ ∷ []) es e h t = cc
branch-Emits offsets (_ ∷ _ ∷ _ ∷ _ ∷ _) es e h t = cc
branch-Emits offsets (_ ∷ yes_block ∷ no_block ∷ []) es e h t =
    let (x, q, h') = >>=-eq-some (target_index offsets no_block) _ h in
    let (y, q', _) = >>=-eq-some (target_index offsets yes_block) _ h' in
    let (id, r, o, s) = target_index-some offsets no_block x q in
    let (id', r', o', s') = target_index-some offsets yes_block y q' in
    after-Emits offsets (block_id no_block) id _ r (
      after-Emits offsets (block_id yes_block) id' _ r' (
        _,
        refl,
        append-Found offsets (e.patches ++ _) _ o' (append-Found offsets e.patches _ o t s) s',
      ))

opcode-Emits :
    (offsets : List Offset) (o : Mir.TerminatorOpcode) (ops : List Operand) (es : List Instruction)
    (e : Emitted)
    → exit_code offsets o ops ≡ some es
    → Found offsets e.patches
    → Emits offsets (emit_opcode o ops e)
opcode-Emits offsets Mir.return ops es e h t = (_, refl, t)
opcode-Emits offsets Mir.tail_call ops es e h t = (_, refl, t)
opcode-Emits offsets Mir.raise_effect ops es e h t = (_, refl, t)
opcode-Emits offsets Mir.jump ops es e h t = jump-Emits offsets ops es e h t
opcode-Emits offsets Mir.branch ops es e h t = branch-Emits offsets ops es e h t
opcode-Emits offsets Mir.effect_perform ops es e h t = perform-Emits offsets ops es e h t

instructions-Emits :
    (offsets : List Offset) (values : List Operand) (is : List Mir.Instruction)
    (ls : List Instruction) (e : Emitted)
    → lower_all values is ≡ some ls
    → Found offsets e.patches
    → Emits offsets (emit_instructions values is e)
unfolding lower_all emit_instructions
instructions-Emits offsets values [] ls e h t = (e, refl, t)
instructions-Emits offsets values (i ∷ is) ls e h t =
    let (l, q, h') = >>=-eq-some (lower_instruction values i) _ h in
    let (ls', r, _) = >>=-eq-some (lower_all values is) _ h' in
    let (e', s, u) = instructions-Emits offsets values is ls' (append l e) r t in (e', rw q s, u)

blocks-Emits :
    (offsets : List Offset) (values : List Operand) (bs : List Block) (cs : List Instruction)
    (e : Emitted)
    → code_of values offsets bs ≡ some cs
    → Found offsets e.patches
    → Emits offsets (emit_blocks values bs e)
unfolding code_of emit_blocks emit_terminator
blocks-Emits offsets values [] cs e h t = (e, refl, t)
blocks-Emits offsets values (b ∷ bs) cs e h t =
    let (ls, q, h') = >>=-eq-some (lower_all values b.instructions) _ h in
    let (es, r, h'') =
      >>=-eq-some (exit_code offsets b.terminator.opcode b.terminator.operands) _ h' in
    let (rest, s, _) = >>=-eq-some (code_of values offsets bs) _ h'' in
    let (e1, q', t1) =
      instructions-Emits offsets values b.instructions ls (begin_block b.id e) q t in
    let (e2, r', t2) = opcode-Emits offsets b.terminator.opcode b.terminator.operands es e1 r t1 in
    let (e3, s', t3) = blocks-Emits offsets values bs rest e2 s t2 in (e3, rw (q', r') s', t3)

linearize_function-returns :
    (values : List Operand) (f : Function) (cs : List Instruction)
    → code_of values (layout 0 f.blocks []) f.blocks ≡ some cs
    → (out : List Instruction) × (linearize_function values f ≡ some out)
unfolding linearize_function Found
linearize_function-returns values f cs h =
    let (e, q, t) = blocks-Emits (layout 0 f.blocks []) values f.blocks cs _ h tt in
    let r = emit-Blocks values f.blocks _ e q in
    let (out, k) = patch_jumps-Found (layout 0 f.blocks []) e.patches e.instructions t in
    (
      out,
      ap (λ (m : Option Emitted). m >>= λ x. patch_jumps x.patches x.block_offsets x.instructions) q
          ∙ (ap (λ (os : List Offset). patch_jumps e.patches os e.instructions)
                (ap (λ (x : Emitted). x.block_offsets) r.emitted)
              ∙ k),
    )

-- Two results are equal if the second is what the first is, and there is a first where there is a
-- second.
options_agree :
    {A : Type 0} (a b : Option A)
    → ((x : A) → a ≡ some x → b ≡ some x)
    → ((x : A) → b ≡ some x → (y : A) × (a ≡ some y))
    → a ≡ b
options_agree none none p q = refl
options_agree (some x) b p q = sym (p x refl)
options_agree none (some y) p q = let (x, h) = q y refl in cc

-- Linearization succeeds exactly where the description in one pass does, and gives what it gives:
-- every block at its offset, in the order of the list, every instruction lowered, every terminator
-- its jump, and every target the offset of the target's block.
pub linearize_function-code_of :
    (values : List Operand) (f : Function)
    → linearize_function values f ≡ code_of values (layout 0 f.blocks []) f.blocks
linearize_function-code_of values f =
    options_agree (linearize_function values f) (code_of values (layout 0 f.blocks []) f.blocks)
      (code_of-linearize_function values f) (linearize_function-returns values f)
