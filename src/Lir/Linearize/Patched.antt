-- ===== src/Lir/Linearize/Patched.antt =====
-- qy/passes/lir/linearize.py: what one patch does, and the instructions of a block.
use qy.Prelude.{
  ℕ, ◌≡◌, refl, sym, ap, subst, ◌∙◌, some, List, [], ◌∷◌, ◌++◌, length, append-nil, append_assoc,
  >>=-eq-some, arith,
}
use qy.Prelude.Members.{some_inj}
use qy.Mir.Node as Mir
use qy.Mir.Node.{Operand, int, Block, Function}
use qy.Lir.Node.{Instruction}
use qy.Lir.Linearize.{
  lower_instruction, Patch, Offset, Emitted, append, emit_instructions, offset_of,
  patch_instruction, patch_at, patch_jumps,
}
use qy.Lir.Linearize.Code.{lower_all}

pub assoc_four : {A : Type 0} (a b c d : List A) → ((a ++ b) ++ c) ++ d ≡ a ++ (b ++ (c ++ d))
assoc_four a b c d = append_assoc (a ++ b) c d ∙ append_assoc a b (c ++ d)

patch_at-length :
    (t : ℕ) (pre : List Instruction) (i : Instruction) (post : List Instruction)
    → patch_at t (length pre) (pre ++ (i ∷ post)) ≡ pre ++ (patch_instruction t i ∷ post)
unfolding patch_at
patch_at-length t [] i post = refl
patch_at-length t (p ∷ pre) i post =
    ap (λ (l : List Instruction). p ∷ l) (patch_at-length t pre i post)

-- The first patch is for the instruction behind `pre`.
pub patch_next :
    (offsets : List Offset) (id : ℕ) (ps : List Patch) (pre : List Instruction) (i : Instruction)
    (post out : List Instruction) (n : ℕ)
    → n ≡ length pre
    → patch_jumps
        (record { instruction_index = n; target_block = id } ∷ ps)
        offsets
        (pre ++ (i ∷ post))
      ≡ some out
    → (o : ℕ) × (offset_of id offsets ≡ some o)
      × (patch_jumps ps offsets (pre ++ (patch_instruction o i ∷ post)) ≡ some out)
unfolding patch_jumps
patch_next offsets id ps pre i post out n q h =
    let (o, e, h') = >>=-eq-some (offset_of id offsets) _ h in
    (
      o,
      e,
      subst (λ (l : List Instruction). patch_jumps ps offsets l ≡ some out)
          (ap (λ (k : ℕ). patch_at o k (pre ++ (i ∷ post))) q ∙ patch_at-length o pre i post) h',
    )

pub lower_all-emit :
    (values : List Operand) (is : List Mir.Instruction) (e e' : Emitted)
    → emit_instructions values is e ≡ some e'
    → (ls : List Instruction) × (lower_all values is ≡ some ls)
      × (e' ≡ record e { instructions = e.instructions ++ ls })
      × (length ls ≡ length is)
unfolding emit_instructions lower_all
lower_all-emit values [] e e' h = (
  [],
  refl,
  sym (some_inj h)
      ∙ ap (λ (l : List Instruction). record e { instructions = l })
          (sym (append-nil e.instructions)),
  refl,
)
lower_all-emit values (i ∷ is) e e' h =
    let (l, q, h') = >>=-eq-some (lower_instruction values i) _ h in
    let (ls, r, s, n) = lower_all-emit values is (append l e) e' h' in
    (
      l ∷ ls,
      rw (q, r) refl,
      s
          ∙ ap (λ (k : List Instruction). record e { instructions = k })
              (append_assoc e.instructions (l ∷ []) ls),
      omega (arith, n),
    )

pub instructions_patched :
    (offsets : List Offset) (ps : List Patch) (a b c : List Instruction) (out : List Instruction)
    → patch_jumps ps offsets (a ++ (b ++ c)) ≡ some out
    → patch_jumps ps offsets ((a ++ b) ++ c) ≡ some out
instructions_patched offsets ps a b c out h =
    subst (λ (l : List Instruction). patch_jumps ps offsets l ≡ some out) (sym (append_assoc a b c))
      h
