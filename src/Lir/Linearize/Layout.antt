-- ===== src/Lir/Linearize/Layout.antt =====
-- What linearize_function returns: the blocks one after the other, every target an offset.
use qy.Prelude.{
  ℕ, ◌+◌, ◌≡◌, refl, sym, ap, subst, ◌∙◌, some, List, [], ◌∷◌, ◌++◌, length, length-append,
  append-nil, append_assoc, >>=-eq-some, arith,
}
use qy.Prelude.Members.{some_inj}
use qy.Mir.Node.{Operand, Block, Function}
use qy.Lir.Node.{Instruction}
use qy.Lir.Linearize.{
  Patch, Offset, Emitted, emit_terminator, emit_instructions, begin_block, emit_blocks, patch_jumps,
  linearize_function,
}
use qy.Lir.Linearize.Code.{lower_all, exit_code, exit_size, layout, code_of}
use qy.Lir.Linearize.Patched.{assoc_four, lower_all-emit, instructions_patched}
use qy.Lir.Linearize.Exits.{opcode-Exits}

-- What blocks emit, and what their patches make of it.
pub record Blocks (values : List Operand) (bs : List Block) (e e' : Emitted) : Type 0 where
  pub draft : List Instruction
  pub patches : List Patch
  pub emitted : e' ≡ record {
    instructions = e.instructions ++ draft;
    patches = e.patches ++ patches;
    block_offsets = layout (length e.instructions) bs e.block_offsets;
  }
  pub filled :
      (offsets : List Offset) (pre out : List Instruction)
      → length e.instructions ≡ length pre
      → patch_jumps patches offsets (pre ++ draft) ≡ some out
      → (cs : List Instruction) × (code_of values offsets bs ≡ some cs) × (out ≡ pre ++ cs)

three_lengths :
    {A : Type 0} (is ls xs : List A) (n k : ℕ)
    → length ls ≡ n
    → length xs ≡ k
    → length ((is ++ ls) ++ xs) ≡ length is + (n + k)
three_lengths is ls xs n k p q =
    let u = length-append (is ++ ls) xs in let v = length-append is ls in omega (arith, u, v, p, q)

abbrev emitted_of : List Instruction → List Patch → List Offset → Emitted
emitted_of is ps os = record { instructions = is; patches = ps; block_offsets = os }

-- What a block and the blocks behind it emit together.
block_emitted :
    (bs : List Block) (b : Block) (e e1 e2 e' : Emitted) (ls xs rs : List Instruction)
    (ps qs : List Patch)
    → e1 ≡ record (begin_block b.id e) { instructions = e.instructions ++ ls }
    → e2 ≡ record e1 { instructions = e1.instructions ++ xs; patches = e1.patches ++ ps }
    → e' ≡ record {
      instructions = e2.instructions ++ rs;
      patches = e2.patches ++ qs;
      block_offsets = layout (length e2.instructions) bs e2.block_offsets;
    }
    → length ls ≡ length b.instructions
    → length xs ≡ exit_size b.terminator.opcode
    → e' ≡ record {
      instructions = e.instructions ++ (ls ++ (xs ++ rs));
      patches = e.patches ++ (ps ++ qs);
      block_offsets = layout (length e.instructions) (b ∷ bs) e.block_offsets;
    }
unfolding layout
block_emitted bs b e e1 e2 e' ls xs rs ps qs s x r n k =
    let finish : Emitted → Emitted = (λ (f : Emitted). record {
      instructions = f.instructions ++ rs;
      patches = f.patches ++ qs;
      block_offsets = layout (length f.instructions) bs f.block_offsets;
    }) in
    let exit : Emitted → Emitted = (λ (f : Emitted). record f {
      instructions = f.instructions ++ xs;
      patches = f.patches ++ ps;
    }) in
    let entries = record { block = b.id; offset = length e.instructions } ∷ e.block_offsets in
    r
    ∙ (ap finish (x ∙ ap exit s)
        ∙ (ap
              (λ (l : List Instruction).
                emitted_of l ((e.patches ++ ps) ++ qs)
                  (layout (length ((e.instructions ++ ls) ++ xs)) bs entries))
              (assoc_four e.instructions ls xs rs)
            ∙ (ap
                  (λ (l : List Patch).
                    emitted_of (e.instructions ++ (ls ++ (xs ++ rs))) l
                      (layout (length ((e.instructions ++ ls) ++ xs)) bs entries))
                  (append_assoc e.patches ps qs)
                ∙ ap
                    (λ (i : ℕ).
                      emitted_of (e.instructions ++ (ls ++ (xs ++ rs))) (e.patches ++ (ps ++ qs))
                        (layout i bs entries))
                    (three_lengths e.instructions ls xs (length b.instructions)
                      (exit_size b.terminator.opcode) n k))))

block_code :
    (values : List Operand) (offsets : List Offset) (b : Block) (bs : List Block)
    (ls es cs : List Instruction)
    → lower_all values b.instructions ≡ some ls
    → exit_code offsets b.terminator.opcode b.terminator.operands ≡ some es
    → code_of values offsets bs ≡ some cs
    → code_of values offsets (b ∷ bs) ≡ some (ls ++ (es ++ cs))
unfolding code_of
block_code values offsets b bs ls es cs q c d = rw (q, c, d) refl

filled_length :
    (e1 : Emitted) (is pre ls : List Instruction)
    → e1.instructions ≡ is ++ ls
    → length is ≡ length pre
    → length e1.instructions ≡ length (pre ++ ls)
filled_length e1 is pre ls s n =
    ap (λ (l : List Instruction). length l) s
    ∙ (length-append is ls ∙ (ap (λ (k : ℕ). k + length ls) n ∙ sym (length-append pre ls)))

ended_length :
    (e1 e2 : Emitted) (pre xs es : List Instruction)
    → e2.instructions ≡ e1.instructions ++ xs
    → length e1.instructions ≡ length pre
    → length es ≡ length xs
    → length e2.instructions ≡ length (pre ++ es)
ended_length e1 e2 pre xs es x n m =
    ap (λ (l : List Instruction). length l) x
    ∙ (length-append e1.instructions xs
        ∙ (ap (λ (k : ℕ). k + length xs) n
            ∙ (ap (λ (k : ℕ). length pre + k) (sym m) ∙ sym (length-append pre es))))

pub emit-Blocks :
    (values : List Operand) (bs : List Block) (e e' : Emitted)
    → emit_blocks values bs e ≡ some e'
    → Blocks values bs e e'
unfolding emit_blocks layout code_of patch_jumps emit_terminator
emit-Blocks values [] e e' h = record {
  draft = [];
  patches = [];
  emitted =
      sym (some_inj h)
      ∙ (ap (λ (l : List Instruction). record e { instructions = l })
            (sym (append-nil e.instructions))
          ∙ ap (λ (l : List Patch). record e { instructions = e.instructions ++ []; patches = l })
              (sym (append-nil e.patches)));
  filled = λ offsets pre out n k. ([], refl, sym (some_inj k));
}
emit-Blocks values (b ∷ bs) e e' h =
    let (e1, h1, k1) =
      >>=-eq-some (emit_instructions values b.instructions (begin_block b.id e)) _ h in
    let (e2, h2, k2) = >>=-eq-some (emit_terminator b.terminator e1) _ k1 in
    let (ls, q, s, len) = lower_all-emit values b.instructions (begin_block b.id e) e1 h1 in
    let x = opcode-Exits b.terminator.opcode b.terminator.operands e1 e2 h2 in
    let r = emit-Blocks values bs e2 e' k2 in
    let front : (pre : List Instruction)
        → length e.instructions ≡ length pre
        → length e1.instructions ≡ length (pre ++ ls) =
      (λ pre n.
        filled_length e1 e.instructions pre ls (ap (λ (f : Emitted). f.instructions) s) n) in
    record {
      draft = ls ++ (x.draft ++ r.draft);
      patches = x.patches ++ r.patches;
      emitted =
          block_emitted bs b e e1 e2 e' ls x.draft r.draft x.patches r.patches s x.emitted r.emitted
            len x.sized;
      filled = λ offsets pre out n k.
          let (es, c, m, k') = x.filled offsets r.patches (pre ++ ls) r.draft out (front pre n) (
            instructions_patched offsets (x.patches ++ r.patches) pre ls (x.draft ++ r.draft) out
              k) in
          let (cs, d, z) =
            r.filled offsets ((pre ++ ls) ++ es) out
              (ended_length e1 e2 (pre ++ ls) x.draft es
                (ap (λ (f : Emitted). f.instructions) x.emitted) (front pre n) m)
              (instructions_patched offsets r.patches (pre ++ ls) es r.draft out k') in
          (
            ls ++ (es ++ cs),
            block_code values offsets b bs ls es cs q c d,
            z ∙ assoc_four pre ls es cs,
          );
    }

pub patched_as :
    (out : List Instruction) (e e' : Emitted)
    → e' ≡ e
    → patch_jumps e.patches e.block_offsets e.instructions ≡ some out
    → patch_jumps e'.patches e'.block_offsets e'.instructions ≡ some out
patched_as out e e' p h =
    subst (λ (f : Emitted). patch_jumps f.patches f.block_offsets f.instructions ≡ some out) (sym p)
      h

pub code_of-linearize_function :
    (values : List Operand) (f : Function) (out : List Instruction)
    → linearize_function values f ≡ some out
    → code_of values (layout 0 f.blocks []) f.blocks ≡ some out
unfolding linearize_function
code_of-linearize_function values f out h =
    let (e, h1, k) = >>=-eq-some (emit_blocks values f.blocks _) _ h in
    let r = emit-Blocks values f.blocks _ e h1 in
    let (cs, d, z) =
      r.filled (layout 0 f.blocks []) [] out refl (patched_as out e _ (sym r.emitted) k) in
    d ∙ ap (λ (l : List Instruction). some l) (sym z)
