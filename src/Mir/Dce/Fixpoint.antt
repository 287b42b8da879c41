-- ===== src/Mir/Dce/Fixpoint.antt =====
-- The loop of the pass ends, and what it leaves has no dead instruction.
use qy.Prelude.{
  ℕ, zero, suc, ◌≤◌, ◌<◌, ◌≡◌, refl, true, false, inl, inr, some, List, [], ◌∷◌, arith, length, any,
  Bool-cases,
}
use qy.Mir.Node.{Instruction, Block, Function}
use qy.Mir.Dce.{
  is_dead, instruction_uses, instructions_uses, block_uses, terminator_uses, sweep_block, sweep,
  finds_dead, collect_used_registers, eliminate_blocks, eliminate_dead, enough_fuel,
  instruction_count, done,
}
use qy.Mir.Dce.Sweep.{live, live_dead, live_kept}
use qy.Prelude.{>>=-eq-some, ◌++◌}

live-le : (used : List ℕ) (is : List Instruction) → length (live used is) ≤ length is
live-le used [] = omega arith
live-le used (i ∷ is) = ground (arith, live-le used is)

live-lt :
    (used : List ℕ) (is : List Instruction)
    → any (is_dead used) is ≡ true
    → length (live used is) < length is
live-lt used [] h = cc
live-lt used (i ∷ is) h = ground (arith, live-le used is, live-lt used is)

sweep-le :
    (used : List ℕ) (bs : List Block) → instruction_count (sweep used bs) ≤ instruction_count bs
unfolding sweep sweep_block instruction_count
sweep-le used [] = omega arith
sweep-le used (b ∷ bs) = omega (arith, live-le used b.instructions, sweep-le used bs)

-- A round that finds a dead instruction removes one.
sweep-lt :
    (used : List ℕ) (bs : List Block)
    → finds_dead used bs ≡ true
    → instruction_count (sweep used bs) < instruction_count bs
unfolding sweep sweep_block instruction_count finds_dead
sweep-lt used [] h = cc
sweep-lt used (b ∷ bs) h = ground (
  arith,
  live-le used b.instructions,
  live-lt used b.instructions,
  sweep-le used bs,
  sweep-lt used bs,
)

-- A round that finds no dead instruction leaves the blocks as they are.
live-id :
    (used : List ℕ) (is : List Instruction) → any (is_dead used) is ≡ false → live used is ≡ is
live-id used [] h = refl
live-id used (i ∷ is) h = ground (arith, live-id used is)

sweep-id : (used : List ℕ) (bs : List Block) → finds_dead used bs ≡ false → sweep used bs ≡ bs
unfolding sweep sweep_block finds_dead
sweep-id used [] h = refl
sweep-id used (b ∷ bs) h = ground (arith, live-id used b.instructions, sweep-id used bs)

live-readable :
    (used : List ℕ) (is : List Instruction) (us : List ℕ)
    → instructions_uses is ≡ some us
    → (us' : List ℕ) × (instructions_uses (live used is) ≡ some us')
unfolding instructions_uses
live-readable used [] us e = ([], refl)
live-readable used (i ∷ is) us e =
    let (xs, ex, e') = >>=-eq-some (instruction_uses i) _ e in
    let (ys, ey, e'') = >>=-eq-some (instructions_uses is) (λ more. some (xs ++ more)) e' in
    let (zs, ez) = live-readable used is ys ey in
    elim (Bool-cases (is_dead used i)) [
      | inl dead ↦ (zs, rw (live_dead used i is dead) ez)
      | inr kept ↦ (xs ++ zs, rw (live_kept used i is kept) (rw (ex, ez, instructions_uses)))
    ]

block-readable :
    (used : List ℕ) (b : Block) (us : List ℕ)
    → block_uses b ≡ some us
    → (us' : List ℕ) × (block_uses (sweep_block used b) ≡ some us')
unfolding block_uses sweep_block
block-readable used b us e =
    let (xs, ex, e') = >>=-eq-some (instructions_uses b.instructions) _ e in
    let (ys, ey, e'') = >>=-eq-some (terminator_uses b.terminator) (λ more. some (xs ++ more)) e' in
    let (zs, ez) = live-readable used b.instructions xs ex in (zs ++ ys, rw (ez, ey, block_uses))

sweep-readable :
    (used : List ℕ) (bs : List Block) (us : List ℕ)
    → collect_used_registers bs ≡ some us
    → (us' : List ℕ) × (collect_used_registers (sweep used bs) ≡ some us')
unfolding collect_used_registers sweep
sweep-readable used [] us e = ([], refl)
sweep-readable used (b ∷ bs) us e =
    let (xs, ex, e') = >>=-eq-some (block_uses b) _ e in
    let (ys, ey, e'') = >>=-eq-some (collect_used_registers bs) (λ more. some (xs ++ more)) e' in
    let (xs', ex') = block-readable used b xs ex in
    let (ys', ey') = sweep-readable used bs ys ey in
    (xs' ++ ys', rw (ex', ey', collect_used_registers))

-- Blocks in which the pass finds nothing more to remove.
abbrev pub IsClean : List Block → Type 0
IsClean bs =
    (used : List ℕ) × (collect_used_registers bs ≡ some used) × (finds_dead used bs ≡ false)

loop_lem :
    (fuel : ℕ) (bs : List Block) (us : List ℕ)
    → instruction_count bs < fuel
    → collect_used_registers bs ≡ some us
    → (bs' : List Block) × (eliminate_blocks fuel bs ≡ done bs') × IsClean bs'
unfolding eliminate_blocks
loop_lem zero bs us h e = absurd (omega arith)
loop_lem (suc fuel) bs us h e = elim (Bool-cases (finds_dead us bs)) [
  | inl more ↦
      let (ys, ey) = sweep-readable us bs us e in
      let (bs', eb, clean) =
        loop_lem fuel (sweep us bs) ys (omega (arith, sweep-lt us bs more)) ey in
      (bs', ground (arith, e, more, eb), clean)
  | inr last ↦ (bs, ground (arith, e, last, sweep-id us bs last), (us, e, last))
]

-- Where the registers of the function can be collected without an exception, the loop of the pass
-- ends, the pass changes the blocks alone, and in the blocks that it returns no instruction is dead.
pub eliminate_dead-IsClean :
    (f : Function) (us : List ℕ)
    → collect_used_registers f.blocks ≡ some us
    → (bs : List Block) × (eliminate_dead f ≡ some (record f { blocks = bs })) × IsClean bs
unfolding eliminate_dead
eliminate_dead-IsClean f us e =
    let (bs, eb, clean) = loop_lem (enough_fuel f.blocks) f.blocks us (omega arith) e in
    (bs, rw eb, clean)
