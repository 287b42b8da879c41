-- ===== src/Lir/Linearize/Exits.antt =====
-- qy/passes/lir/linearize.py: what a terminator emits, and what its patches make of it.
use qy.Prelude.{
  ℕ, ◌+◌, ◌≡◌, refl, sym, ap, subst, ◌∙◌, some, List, [], ◌∷◌, ◌++◌, length, length-append,
  append-nil, append_assoc, >>=-eq-some,
}
use qy.Prelude.Members.{some_inj}
use qy.Mir.Node as Mir
use qy.Mir.Node.{Operand, int, Block, Function}
use qy.Lir.Node.{Opcode, Instruction}
use qy.Lir.Linearize.{
  instruction, Patch, Offset, Emitted, append, None, block_id, emit_opcode, offset_of, patch_jumps,
}
use qy.Lir.Linearize.Code.{exit_code, exit_size}
use qy.Lir.Linearize.Patched.{patch_next}

-- What a terminator emits, and what its patches make of it.
pub record Exits (t : Mir.Terminator) (e e' : Emitted) : Type 0 where
  pub draft : List Instruction
  pub patches : List Patch
  pub emitted :
      e' ≡ record e { instructions = e.instructions ++ draft; patches = e.patches ++ patches }
  pub sized : length draft ≡ exit_size t.opcode
  pub filled :
      (offsets : List Offset) (ps : List Patch) (pre post out : List Instruction)
      → length e.instructions ≡ length pre
      → patch_jumps (patches ++ ps) offsets (pre ++ (draft ++ post)) ≡ some out
      → (es : List Instruction) × (exit_code offsets t.opcode t.operands ≡ some es)
        × (length es ≡ length draft)
        × (patch_jumps ps offsets (pre ++ (es ++ post)) ≡ some out)

plain-Exits :
    (o : Mir.TerminatorOpcode) (ops : List Operand) (i : Instruction) (e e' : Emitted)
    → ((offsets : List Offset) → exit_code offsets o ops ≡ some (i ∷ []))
    → exit_size o ≡ 1
    → some (append i e) ≡ some e'
    → Exits (record { opcode = o; operands = ops }) e e'
plain-Exits o ops i e e' code size h = record {
  draft = i ∷ [];
  patches = [];
  emitted =
      sym (some_inj h)
      ∙ ap (λ (l : List Patch). record (append i e) { patches = l }) (sym (append-nil e.patches));
  sized = sym size;
  filled = λ offsets ps pre post out q k. (i ∷ [], code offsets, refl, k);
}

jump-Exits :
    (ops : List Operand) (e e' : Emitted)
    → emit_opcode Mir.jump ops e ≡ some e'
    → Exits (record { opcode = Mir.jump; operands = ops }) e e'
jump-Exits [] e e' h = cc
jump-Exits (_ ∷ _ ∷ _) e e' h = cc
jump-Exits (target ∷ []) e e' h =
    let (id, q, h') = >>=-eq-some (block_id target) _ h in
    record {
      draft = instruction Opcode.jump (None ∷ []) ∷ [];
      patches = record { instruction_index = length e.instructions; target_block = id } ∷ [];
      emitted = sym (some_inj h');
      sized = refl;
      filled = λ offsets ps pre post out n k.
          let (o, r, k') = patch_next offsets id ps pre _ post out (length e.instructions) n k in
          (instruction Opcode.jump (int o ∷ []) ∷ [], rw (q, r) refl, refl, k');
    }

perform-Exits :
    (ops : List Operand) (e e' : Emitted)
    → emit_opcode Mir.effect_perform ops e ≡ some e'
    → Exits (record { opcode = Mir.effect_perform; operands = ops }) e e'
perform-Exits [] e e' h = cc
perform-Exits (_ ∷ []) e e' h = cc
perform-Exits (_ ∷ _ ∷ []) e e' h = cc
perform-Exits (_ ∷ _ ∷ _ ∷ []) e e' h = cc
perform-Exits (_ ∷ _ ∷ _ ∷ _ ∷ []) e e' h = cc
perform-Exits (_ ∷ _ ∷ _ ∷ _ ∷ _ ∷ _ ∷ _) e e' h = cc
perform-Exits (dst ∷ effect ∷ arg ∷ target ∷ resumable ∷ []) e e' h =
    let (id, q, h') = >>=-eq-some (block_id target) _ h in
    record {
      draft = instruction Opcode.effect_perform (dst ∷ effect ∷ arg ∷ None ∷ resumable ∷ []) ∷ [];
      patches = record { instruction_index = length e.instructions; target_block = id } ∷ [];
      emitted = sym (some_inj h');
      sized = refl;
      filled = λ offsets ps pre post out n k.
          let (o, r, k') = patch_next offsets id ps pre _ post out (length e.instructions) n k in
          (
            instruction Opcode.effect_perform (dst ∷ effect ∷ arg ∷ int o ∷ resumable ∷ []) ∷ [],
            rw (q, r) refl,
            refl,
            k',
          );
    }

branch_code :
    (offsets : List Offset) (condition t f : Operand) (fid tid o o' : ℕ)
    → block_id f ≡ some fid
    → offset_of fid offsets ≡ some o
    → block_id t ≡ some tid
    → offset_of tid offsets ≡ some o'
    → exit_code offsets Mir.branch (condition ∷ t ∷ f ∷ [])
      ≡ some (
          instruction Opcode.jump_if_false (condition ∷ int o ∷ [])
          ∷ instruction Opcode.jump (int o' ∷ [])
          ∷ [])
branch_code offsets condition t f fid tid o o' q u r v = rw (q, u, r, v) refl

branch-Exits :
    (ops : List Operand) (e e' : Emitted)
    → emit_opcode Mir.branch ops e ≡ some e'
    → Exits (record { opcode = Mir.branch; operands = ops }) e e'
branch-Exits [] e e' h = cc
branch-Exits (_ ∷ []) e e' h = cc
branch-Exits (_ ∷ _ ∷ []) e e' h = cc
branch-Exits (_ ∷ _ ∷ _ ∷ _ ∷ _) e e' h = cc
branch-Exits (condition ∷ t ∷ f ∷ []) e e' h =
    let (fid, q, h') = >>=-eq-some (block_id f) _ h in
    let (tid, r, h'') = >>=-eq-some (block_id t) _ h' in
    let a = instruction Opcode.jump_if_false (condition ∷ None ∷ []) in
    let b = instruction Opcode.jump (None ∷ []) in
    let n = length e.instructions in
    let m = length (e.instructions ++ (a ∷ [])) in
    let p : Patch = record { instruction_index = n; target_block = fid } in
    let p' : Patch = record { instruction_index = m; target_block = tid } in
    record {
      draft = a ∷ b ∷ [];
      patches = p ∷ p' ∷ [];
      emitted =
          sym (some_inj h'')
          ∙ (ap
                (λ (l : List Instruction). record e {
                  instructions = l;
                  patches = (e.patches ++ (p ∷ [])) ++ (p' ∷ []);
                })
                (append_assoc e.instructions (a ∷ []) (b ∷ []))
              ∙ ap
                  (λ (l : List Patch). record e {
                    instructions = e.instructions ++ (a ∷ b ∷ []);
                    patches = l;
                  })
                  (append_assoc e.patches (p ∷ []) (p' ∷ [])));
      sized = refl;
      filled = λ offsets ps pre post out z k.
          let (o, u, k') = patch_next offsets fid (p' ∷ ps) pre a (b ∷ post) out n z k in
          let a' = instruction Opcode.jump_if_false (condition ∷ int o ∷ []) in
          let (o', v, k'') =
            patch_next offsets tid ps (pre ++ (a' ∷ [])) b post out m
              (length-append e.instructions (a ∷ [])
                ∙ (ap (λ (x : ℕ). x + 1) z ∙ sym (length-append pre (a' ∷ []))))
              (subst (λ (l : List Instruction). patch_jumps (p' ∷ ps) offsets l ≡ some out)
                (sym (append_assoc pre (a' ∷ []) (b ∷ post))) k') in
          (
            a' ∷ instruction Opcode.jump (int o' ∷ []) ∷ [],
            branch_code offsets condition t f fid tid o o' q u r v,
            refl,
            subst (λ (l : List Instruction). patch_jumps ps offsets l ≡ some out)
                (append_assoc pre (a' ∷ []) (instruction Opcode.jump (int o' ∷ []) ∷ post)) k'',
          );
    }

pub opcode-Exits :
    (o : Mir.TerminatorOpcode) (ops : List Operand) (e e' : Emitted)
    → emit_opcode o ops e ≡ some e'
    → Exits (record { opcode = o; operands = ops }) e e'
opcode-Exits Mir.return ops e e' h =
    plain-Exits Mir.return ops (instruction Opcode.return ops) e e' (λ offsets. refl) refl h
opcode-Exits Mir.tail_call ops e e' h =
    plain-Exits Mir.tail_call ops (instruction Opcode.tail_call ops) e e' (λ offsets. refl) refl h
opcode-Exits Mir.raise_effect ops e e' h =
    plain-Exits Mir.raise_effect ops (instruction Opcode.raise_effect ops) e e' (λ offsets. refl)
      refl h
opcode-Exits Mir.jump ops e e' h = jump-Exits ops e e' h
opcode-Exits Mir.branch ops e e' h = branch-Exits ops e e' h
opcode-Exits Mir.effect_perform ops e e' h = perform-Exits ops e e' h
