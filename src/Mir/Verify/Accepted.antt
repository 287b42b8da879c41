-- ===== src/Mir/Verify/Accepted.antt =====
-- What verify_mir ensures of a program in which it finds no error.
use qy.Prelude.{
  ℕ, ◌<◌, ◌≡◌, ◌≢◌, refl, sym, subst, ◌∙◌, inl, inr, false, Bool-cases, Option, some, List, [], ◌∷◌,
  ◌++◌, arith, ◌==◌, ltb→lt, length, ltb, ltb→lt,
}
use qy.Prelude.Members.{In, elem, elem→In, some_inj}
use qy.Mir.Node.{Instruction, Terminator, Block, Function}
use qy.Mir.Operands
use qy.Mir.Operands.{uses, def, terminator_targets, written}
use qy.Mir.Semantics.{find_block}
use qy.Mir.Verify.Problem.{Problem, Diagnostic, report_all, error, errors, IsAccepted}
use qy.Mir.Verify.Schema.{verify_instruction}
use qy.Mir.Verify.Registers.{append-nil, Below, uses-Below, def-Below}
use qy.Mir.Verify.Exits.{terminator_uses-Below, written-Below, targets-known}
use qy.Mir.Verify.Reach.{ids}
use qy.Mir.Verify.Program.{
  verify_continuous_run, duplicate_blocks, verify_instructions, verify_block, verify_blocks,
  verify_entry, verify_function, verify_functions, main_check, Program, verify_mir,
}
use qy.Mir.Verify.Pairing.{check_program}

errors-append : (xs ys : List Diagnostic) → errors (xs ++ ys) ≡ errors xs ++ errors ys
errors-append [] ys = refl
errors-append (x ∷ xs) ys = ground (arith, errors-append xs ys)

-- A run of checks has no error where its parts have none.
pub IsAccepted-parts :
    (xs ys : List Diagnostic) → IsAccepted (xs ++ ys) → IsAccepted xs × IsAccepted ys
IsAccepted-parts xs ys h = append-nil (errors xs) (errors ys) (sym (errors-append xs ys) ∙ h)

pub accepted_report :
    (f b : Option ℕ) (ps : List Problem) → IsAccepted (report_all error f b ps) → ps ≡ []
accepted_report f b [] h = refl
accepted_report f b (p ∷ ps) h = cc

pub no_error : {d : Diagnostic} {ds : List Diagnostic} → ¬ (d ∷ ds ≡ [])
no_error h = cc

-- A register of the instruction is below the register count.
abbrev pub InstructionFits : ℕ → Instruction → Type 0
InstructionFits n i = Below n (uses i) × ((r : ℕ) → def i ≡ some r → r < n)

abbrev pub TerminatorFits : ℕ → List Block → Terminator → Type 0
TerminatorFits n bs t =
    Below n (Operands.terminator_uses t)
    × ((r : ℕ) → written t ≡ some r → r < n)
    × ((id : ℕ) → In id (terminator_targets t) → (b : Block) × (find_block id bs ≡ some b))

abbrev pub BlockFits : Function → Block → Type 0
BlockFits f b =
    ((i : Instruction) → In i b.instructions → InstructionFits f.register_count i)
    × TerminatorFits f.register_count f.blocks b.terminator

-- The blocks are found by their ids, the entry is one, and each keeps to the registers of the
-- function and to its blocks.
abbrev pub IsWellFormed : Function → Type 0
IsWellFormed f =
    ((b : Block) × (find_block f.entry f.blocks ≡ some b))
    × ((b : Block) → In b f.blocks → find_block b.id f.blocks ≡ some b)
    × ((b : Block) → In b f.blocks → BlockFits f b)

pub find_block-In : (id : ℕ) (bs : List Block) (b : Block) → find_block id bs ≡ some b → In b bs
unfolding find_block
find_block-In id [] b e = cc
find_block-In id (c ∷ bs) b e = elim (Bool-cases (c.id == id)) [
  | inl q ↦ inl (sym (some_inj (rw q at e)))
  | inr q ↦ inr (find_block-In id bs b (rw q at e))
]

known_found :
    (id : ℕ) (bs : List Block) → In id (ids bs) → (b : Block) × (find_block id bs ≡ some b)
unfolding find_block
known_found id [] m = absurd m
known_found id (c ∷ bs) m = elim (Bool-cases (c.id == id)) [
  | inl q ↦ (c, rw q refl)
  | inr q ↦ elim m [
    | inl z ↦ absurd (ground arith)
    | inr k ↦ let (b, e) = known_found id bs k in (b, rw q e)
  ]
]

find-head : (c : Block) (bs : List Block) → find_block c.id (c ∷ bs) ≡ some c
unfolding find_block
find-head c bs = ground arith

find-tail :
    (id : ℕ) (c : Block) (bs : List Block) → id ≢ c.id → find_block id (c ∷ bs) ≡ find_block id bs
unfolding find_block
find-tail id c bs h = ground (arith, h)

≢-cons : (x y : ℕ) (ys : List ℕ) → elem x (y ∷ ys) ≡ false → (x ≢ y) × (elem x ys ≡ false)
≢-cons x y ys h = (λ q. ground arith, ground arith)

fresh_found :
    (f : Function) (seen : List ℕ) (bs : List Block) (b : Block)
    → IsAccepted (duplicate_blocks f seen bs)
    → In b bs
    → (elem b.id seen ≡ false) × (find_block b.id bs ≡ some b)
unfolding duplicate_blocks find_block
fresh_found f seen [] b h m = absurd m
fresh_found f seen (c ∷ bs) b h m = elim (Bool-cases (elem c.id seen)) [
  | inl e ↦ absurd (no_error (rw e at h))
  | inr e ↦ elim m [
    | inl q ↦ (
      subst (λ (x : Block). elem x.id seen ≡ false) (sym q) e,
      subst (λ (x : Block). find_block x.id (c ∷ bs) ≡ some x) (sym q) (find-head c bs),
    )
    | inr k ↦
        let (g, d) = fresh_found f (c.id ∷ seen) bs b (rw e at h) k in
        let n = ≢-cons b.id c.id seen g in (n.1, rw (find-tail b.id c bs n.0) d)
  ]
]

instructions-fit :
    (n : ℕ) (is : List Instruction) (i : Instruction)
    → verify_instructions n is ≡ []
    → In i is
    → InstructionFits n i
unfolding verify_instructions
instructions-fit n [] i h m = absurd m
instructions-fit n (j ∷ is) i h m =
    let (p, q) = append-nil (verify_instruction n j) (verify_instructions n is) h in
    elim m [
      | inl z ↦ rw z (uses-Below n j p, λ r. def-Below n j r p)
      | inr k ↦ instructions-fit n is i q k
    ]

block-fits : (f : Function) (b : Block) → verify_block f b ≡ [] → BlockFits f b
unfolding verify_block
block-fits f b h =
    let (p, q) = append-nil (verify_instructions f.register_count b.instructions) _ h in
    let (_, t) = append-nil (verify_continuous_run b) _ q in
    (
      λ i m. instructions-fit f.register_count b.instructions i p m,
      (
        terminator_uses-Below f.register_count (ids f.blocks) b.terminator t,
        λ r. written-Below f.register_count (ids f.blocks) b.terminator r t,
        λ id m.
            known_found id f.blocks
              (targets-known f.register_count (ids f.blocks) b.terminator t id m),
      ),
    )

blocks-fit :
    (f : Function) (bs : List Block) (b : Block)
    → IsAccepted (verify_blocks f bs)
    → In b bs
    → BlockFits f b
unfolding verify_blocks
blocks-fit f [] b h m = absurd m
blocks-fit f (c ∷ bs) b h m =
    let (p, q) =
      IsAccepted-parts (report_all error (some f.name) (some c.id) (verify_block f c))
        (verify_blocks f bs) h in
    elim m [
      | inl z ↦ rw z (block-fits f c (accepted_report _ _ (verify_block f c) p))
      | inr k ↦ blocks-fit f bs b q k
    ]

entry-known : (f : Function) → IsAccepted (verify_entry f) → In f.entry (ids f.blocks)
entry-known f h = elim (Bool-cases (elem f.entry (ids f.blocks))) [
  | inl e ↦ elem→In f.entry (ids f.blocks) e
  | inr e ↦ absurd (no_error (rw e at h))
]

-- A function in which _verify_function finds no error is well formed.
pub verify_function-IsWellFormed : (f : Function) → IsAccepted (verify_function f) → IsWellFormed f
unfolding verify_function
verify_function-IsWellFormed f h =
    let (p, h1) = IsAccepted-parts (duplicate_blocks f [] f.blocks) _ h in
    let (q, h2) = IsAccepted-parts (verify_entry f) _ h1 in
    let (r, _) = IsAccepted-parts (verify_blocks f f.blocks) _ h2 in
    (
      known_found f.entry f.blocks (entry-known f q),
      λ b m. (fresh_found f [] f.blocks b p m).1,
      λ b m. blocks-fit f f.blocks b r m,
    )

functions-IsAccepted :
    (fs : List Function) (f : Function)
    → IsAccepted (verify_functions fs)
    → In f fs
    → IsAccepted (verify_function f)
unfolding verify_functions
functions-IsAccepted [] f h m = absurd m
functions-IsAccepted (g ∷ fs) f h m =
    let (p, q) = IsAccepted-parts (verify_function g) (verify_functions fs) h in
    elim m [ inl z ↦ rw z p | inr k ↦ functions-IsAccepted fs f q k ]

main-known : (p : Program) → IsAccepted (main_check p) → p.main < length p.functions
main-known p h = elim (Bool-cases (ltb p.main (length p.functions))) [
  | inl e ↦ ltb→lt p.main (length p.functions) e
  | inr e ↦ absurd (no_error (rw e at h))
]

-- In a program in which verify_mir finds no error, the main function is there, and every function
-- is well formed.
pub verify_mir-IsWellFormed :
    (p : Program)
    → IsAccepted (verify_mir p)
    → (p.main < length p.functions) × ((f : Function) → In f p.functions → IsWellFormed f)
unfolding verify_mir
verify_mir-IsWellFormed p h =
    let (m, h1) = IsAccepted-parts (main_check p) _ h in
    let (k, _) = IsAccepted-parts (verify_functions p.functions) (check_program p.functions) h1 in
    (main-known p m, λ f n. verify_function-IsWellFormed f (functions-IsAccepted p.functions f k n))
