-- ===== src/Mir/Dce/Preserves.antt =====
-- Removing dead instructions does not change what a function computes, but for exceptions of loads
-- that it removes.
use qy.Prelude.{
  ℕ, zero, suc, ◌≡◌, refl, sym, subst, true, ◌∙◌, ◌⊎◌, ◌==◌, inl, inr, Option, none, some, List, [],
  ◌∷◌, ◌++◌, arith, Bool-cases, Option-cases, >>=-eq-some,
}
use qy.Prelude.Members.{Subset, In-append_left, In-append_right, some_inj}
use qy.Mir.Node.{Instruction, Block, Function}
use qy.Mir.Operands
use qy.Mir.Operands.{written}
use qy.Mir.Semantics.{
  Leave, goto, halt, Agree, Machine, put, Ran, find_block, enter, after, visit, run,
}
use qy.Mir.Dce.{
  side_effect_free, sweep_block, sweep, finds_dead, instructions_uses, block_uses,
  collect_used_registers, terminator_uses, eliminate_blocks, eliminate_dead, enough_fuel, done,
  with_blocks_inv,
}
use qy.Mir.Dce.CoverTerminator.{IsPlain, terminator_uses-Subset}
use qy.Mir.Dce.Sweep.{
  Covered, instructions-Covered, Agree-put, Alike, both_ran, both_stopped, raised_second,
  sweep-Alike,
}

abbrev BlockCovered : List ℕ → Block → Type 0
BlockCovered used b =
    Covered used b.instructions × Subset (Operands.terminator_uses b.terminator) used

abbrev AllCovered : List ℕ → List Block → Type 0
AllCovered used [] = Unit
AllCovered used (b ∷ bs) = BlockCovered used b × AllCovered used bs

-- The single registers of each terminator are no tuples.
abbrev pub AllPlain : List Block → Type 0
AllPlain [] = Unit
AllPlain (b ∷ bs) = IsPlain b.terminator × AllPlain bs

block-Covered :
    (used : List ℕ) (b : Block) (us : List ℕ)
    → IsPlain b.terminator
    → block_uses b ≡ some us
    → Subset us used
    → BlockCovered used b
unfolding block_uses
block-Covered used b us plain e h =
    let (xs, ex, e') = >>=-eq-some (instructions_uses b.instructions) _ e in
    let (ys, ey, e'') = >>=-eq-some (terminator_uses b.terminator) (λ more. some (xs ++ more)) e' in
    let eq : xs ++ ys ≡ us = some_inj e'' in
    (
      instructions-Covered used b.instructions xs ex
          (λ a k. h a (rw (← eq) (In-append_left a xs ys k))),
      (λ a k. h a (
          rw (← eq)
            (In-append_right a xs ys (terminator_uses-Subset b.terminator ys plain ey a k)))),
    )

blocks-Covered :
    (used : List ℕ) (bs : List Block) (us : List ℕ)
    → AllPlain bs
    → collect_used_registers bs ≡ some us
    → Subset us used
    → AllCovered used bs
unfolding collect_used_registers
blocks-Covered used [] us plain e h = tt
blocks-Covered used (b ∷ bs) us plain e h =
    let (xs, ex, e') = >>=-eq-some (block_uses b) _ e in
    let (ys, ey, e'') = >>=-eq-some (collect_used_registers bs) (λ more. some (xs ++ more)) e' in
    let eq : xs ++ ys ≡ us = some_inj e'' in
    (
      block-Covered used b xs plain.0 ex (λ a k. h a (rw (← eq) (In-append_left a xs ys k))),
      blocks-Covered used bs ys plain.1 ey (λ a k. h a (rw (← eq) (In-append_right a xs ys k))),
    )

-- Where a block of the swept list comes from.
data Found (used : List ℕ) : Option Block → Option Block → Type 0 where
  missing : Found used none none
  block : (b : Block) → BlockCovered used b → Found used (some (sweep_block used b)) (some b)

find_block-Found :
    (used : List ℕ) (id : ℕ) (bs : List Block)
    → AllCovered used bs
    → Found used (find_block id (sweep used bs)) (find_block id bs)
unfolding find_block sweep sweep_block
find_block-Found used id [] c = missing
find_block-Found used id (b ∷ bs) c = elim (Bool-cases (b.id == id)) [
  | inl e ↦ rw e (block b c.0)
  | inr e ↦ rw e (find_block-Found used id bs c.1)
]

sweep-AllPlain : (used : List ℕ) (bs : List Block) → AllPlain bs → AllPlain (sweep used bs)
unfolding sweep sweep_block
sweep-AllPlain used [] p = tt
sweep-AllPlain used (b ∷ bs) p = (p.0, sweep-AllPlain used bs p.1)

module _ (m : Machine) where
  open m use {Value, World, Answer, leave}

  -- The first does what the second does, unless this one ends with the exception of an
  -- instruction that the pass calls free of side effects.
  abbrev pub IsAsBefore : Option Answer → Option Answer → Type 0
  IsAsBefore x y =
      (x ≡ y) ⊎ ((i : Instruction) × (side_effect_free i.opcode ≡ true) × (y ≡ some (m.raised i)))

  IsAsBefore-trans : (x y z : Option Answer) → IsAsBefore x y → IsAsBefore y z → IsAsBefore x z
  IsAsBefore-trans x y z (inl e) (inl k) = inl (e ∙ k)
  IsAsBefore-trans x y z (inr (i, free, e)) (inl k) = inr (i, free, sym k ∙ e)
  IsAsBefore-trans x y z _ (inr k) = inr k

  enter_alike :
      (used : List ℕ) (rest rest' : ℕ → (ℕ → Value) → World → Option Answer) (d : Option ℕ)
      (ρ ρ' : ℕ → Value) (l : Leave Value World Answer)
      → Agree used ρ ρ'
      → ((id : ℕ) (ρ ρ' : ℕ → Value) (w : World)
          → Agree used ρ ρ'
          → IsAsBefore (rest id ρ w) (rest' id ρ' w))
      → IsAsBefore (enter m rest d ρ l) (enter m rest' d ρ' l)
  unfolding enter
  enter_alike used rest rest' d ρ ρ' (halt a) h go = inl refl
  enter_alike used rest rest' d ρ ρ' (goto id v w) h go =
      go id (put d v ρ) (put d v ρ') w (Agree-put d v used ρ ρ' h)

  after-Alike :
      (used : List ℕ) (rest rest' : ℕ → (ℕ → Value) → World → Option Answer) (b : Block)
      {x y : Ran Value World Answer}
      → BlockCovered used b
      → Alike m used x y
      → ((id : ℕ) (ρ ρ' : ℕ → Value) (w : World)
          → Agree used ρ ρ'
          → IsAsBefore (rest id ρ w) (rest' id ρ' w))
      → IsAsBefore (after m rest (sweep_block used b) x) (after m rest' b y)
  unfolding after sweep_block
  after-Alike used rest rest' b c (both_ran {ρ} {ρ'} {w} h) go =
      rw (m.leave_reads b.terminator ρ ρ' w (λ r k. h r (c.1 r k)))
        (enter_alike used rest rest' (written b.terminator) ρ ρ' (leave b.terminator ρ' w) h go)
  after-Alike used rest rest' b c both_stopped go = inl refl
  after-Alike used rest rest' b c (raised_second i free) go = inr (i, free, refl)

  -- One lookup, then the terminator: alike in both functions, if what follows is.
  run_step_alike :
      (used : List ℕ) (rest rest' : ℕ → (ℕ → Value) → World → Option Answer) (id : ℕ)
      (ρ ρ' : ℕ → Value) (w : World) {x y : Option Block}
      → Found used x y
      → Agree used ρ ρ'
      → ((id : ℕ) (ρ ρ' : ℕ → Value) (w : World)
          → Agree used ρ ρ'
          → IsAsBefore (rest id ρ w) (rest' id ρ' w))
      → IsAsBefore (visit m rest id ρ w x) (visit m rest' id ρ' w y)
  unfolding visit sweep_block
  run_step_alike used rest rest' id ρ ρ' w missing h go = inl refl
  run_step_alike used rest rest' id ρ ρ' w (block b c) h go =
      after-Alike used rest rest' b c (sweep-Alike m used b.instructions ρ ρ' w c.0 h) go

  run-sweep :
      (used : List ℕ) (fuel : ℕ) (bs : List Block) (id : ℕ) (ρ ρ' : ℕ → Value) (w : World)
      → AllCovered used bs
      → Agree used ρ ρ'
      → IsAsBefore (run m fuel (sweep used bs) id ρ w) (run m fuel bs id ρ' w)
  unfolding run
  run-sweep used zero bs id ρ ρ' w c h = inl refl
  run-sweep used (suc fuel) bs id ρ ρ' w c h =
      run_step_alike used (run m fuel (sweep used bs)) (run m fuel bs) id ρ ρ' w
        (find_block-Found used id bs c) h (λ id ρ ρ' w. run-sweep used fuel bs id ρ ρ' w c)

  loop-preserves :
      (rounds : ℕ) (bs bs' : List Block) (fuel id : ℕ) (ρ : ℕ → Value) (w : World)
      → AllPlain bs
      → eliminate_blocks rounds bs ≡ done bs'
      → IsAsBefore (run m fuel bs' id ρ w) (run m fuel bs id ρ w)
  unfolding eliminate_blocks
  loop-preserves zero bs bs' fuel id ρ w p e = cc
  loop-preserves (suc rounds) bs bs' fuel id ρ w p e =
      elim (Option-cases (collect_used_registers bs)) [
        | inl none_used ↦ cc (rw (none_used, eliminate_blocks) at e)
        | inr (used, eu) ↦
            let c = blocks-Covered used bs used p eu (λ a k. k) in
            let one = run-sweep used fuel bs id ρ ρ w c (λ r k. refl) in
            elim (Bool-cases (finds_dead used bs)) [
              | inl more ↦
                  IsAsBefore-trans _ _ _
                    (loop-preserves rounds (sweep used bs) bs' fuel id ρ w
                      (sweep-AllPlain used bs p) (ground (arith, eu, more)))
                    one
              | inr last ↦
                  let end : sweep used bs ≡ bs' = ground (arith, eu, last) in
                  subst
                    (λ (l : List Block). IsAsBefore (run m fuel l id ρ w) (run m fuel bs id ρ w))
                    end one
            ]
      ]

-- On every machine that runs the opcodes which load a register as the virtual machine does, and whose
-- other instructions and terminators read and write the registers of the register tables only: a
-- function whose terminators have no tuples for single registers gives the same answer before and
-- after the pass, from every block, register contents and world, and within the same number of
-- blocks, unless the function before the pass ends with the exception of an instruction that the
-- pass calls free of side effects.
pub eliminate_dead-preserves :
    (m : Machine) (f f' : Function) (fuel id : ℕ) (ρ : ℕ → m.Value) (w : m.World)
    → AllPlain f.blocks
    → eliminate_dead f ≡ some f'
    → IsAsBefore m (run m fuel f'.blocks id ρ w) (run m fuel f.blocks id ρ w)
unfolding eliminate_dead
eliminate_dead-preserves m f f' fuel id ρ w p e =
    let (bs, eo, ef) = with_blocks_inv f (eliminate_blocks (enough_fuel f.blocks) f.blocks) f' e in
    rw ef (loop-preserves m (enough_fuel f.blocks) f.blocks bs fuel id ρ w p eo)
