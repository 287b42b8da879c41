-- ===== src/Mir/Dce/Sweep.antt =====
-- One round over the instructions of a block: with the same values in the used registers, the
-- block without its dead instructions runs as the block does.
use qy.Prelude.{
  ℕ, ◌≡◌, refl, inl, inr, Bool, true, false, not, Option, none, some, List, [], ◌∷◌, ◌++◌, arith,
  filterb, Bool-cases, Option-cases, ◌⊎◌, >>=-eq-some,
}
use qy.Prelude.Members.{Subset, elem, In→elem, In-append_left, In-append_right, some_inj}
use qy.Mir.Node.{Operand, int, boolean, bit, tuple, object, Opcode, Instruction}
use qy.Mir.Operands
use qy.Mir.Operands.{def, first, int_at}
use qy.Mir.Semantics.{
  Step, next, stop, Agree, Machine, put, Ran, ran, stopped, run_instructions, exec, load,
}
use qy.Mir.Semantics.Reads.{exec_reads}
use qy.Mir.Dce.{side_effect_free, is_dead, instruction_uses, instructions_uses}
use qy.Mir.Dce.Cover.{instruction_uses-Subset}

pub Agree-put :
    {A : Type 0} (d : Option ℕ) (v : A) (used : List ℕ) (ρ ρ' : ℕ → A)
    → Agree used ρ ρ'
    → Agree used (put d v ρ) (put d v ρ')
Agree-put none v used ρ ρ' h r m = h r m
Agree-put (some d) v used ρ ρ' h r m = ground (arith, h r m)

Agree-skip :
    {A : Type 0} (d : ℕ) (v : A) (used : List ℕ) (ρ ρ' : ℕ → A)
    → elem d used ≡ false
    → Agree used ρ ρ'
    → Agree used ρ (put (some d) v ρ')
Agree-skip d v used ρ ρ' e h r m = ground (arith, h r m, In→elem r used m)

-- A dead instruction has no side effects, and what it writes is not used.
is_dead_cases :
    (used : List ℕ) (o : Opcode) (ops : List Operand) (c : Bool)
    → is_dead used (record { opcode = o; operands = ops; continuous = c }) ≡ true
    → (side_effect_free o ≡ true)
      × ((d : ℕ) × (first (int_at 0 ops) ≡ some d) × (elem d used ≡ false))
unfolding is_dead
is_dead_cases used o [] c h = ground arith
is_dead_cases used o (int d ∷ rest) c h = (ground arith, (d, refl, ground arith))
is_dead_cases used o (boolean d ∷ rest) c h = (ground arith, (bit d, refl, ground arith))
is_dead_cases used o (tuple _ ∷ rest) c h = ground arith
is_dead_cases used o (object _ ∷ rest) c h = ground arith

free_def :
    (o : Opcode) (ops : List Operand) (d : ℕ) (c : Bool)
    → side_effect_free o ≡ true
    → first (int_at 0 ops) ≡ some d
    → def (record { opcode = o; operands = ops; continuous = c }) ≡ some d
unfolding def
free_def o [] d c h e = cc
free_def Opcode.load_const (_ ∷ _) d c h e = e
free_def Opcode.load_host (_ ∷ _) d c h e = e
free_def Opcode.load_env (_ ∷ _) d c h e = e
free_def Opcode.move (_ ∷ _) d c h e = e
free_def Opcode.make_function (_ ∷ _) d c h e = e
free_def Opcode.make_macro (_ ∷ _) d c h e = e
free_def Opcode.build_tuple (_ ∷ _) d c h e = e
free_def _ (_ ∷ _) d c h e = cc

-- Every register that the instructions read is in `used`.
abbrev pub Covered : List ℕ → List Instruction → Type 0
Covered used [] = Unit
Covered used (i ∷ is) = Subset (Operands.uses i) used × Covered used is

pub instructions-Covered :
    (used : List ℕ) (is : List Instruction) (us : List ℕ)
    → instructions_uses is ≡ some us
    → Subset us used
    → Covered used is
unfolding instructions_uses
instructions-Covered used [] us e h = tt
instructions-Covered used (i ∷ is) us e h =
    let (xs, ex, e') = >>=-eq-some (instruction_uses i) _ e in
    let (ys, ey, e'') = >>=-eq-some (instructions_uses is) (λ more. some (xs ++ more)) e' in
    let eq : xs ++ ys ≡ us = some_inj e'' in
    (
      λ a k. h a (rw (← eq) (In-append_left a xs ys (instruction_uses-Subset i xs ex a k))),
      instructions-Covered used is ys ey (λ a k. h a (rw (← eq) (In-append_right a xs ys k))),
    )

abbrev pub live : List ℕ → List Instruction → List Instruction
live used is = filterb (λ i. not (is_dead used i)) is

pub live_dead :
    (used : List ℕ) (i : Instruction) (is : List Instruction)
    → is_dead used i ≡ true
    → live used (i ∷ is) ≡ live used is
live_dead used i is e = rw (e, filterb)

pub live_kept :
    (used : List ℕ) (i : Instruction) (is : List Instruction)
    → is_dead used i ≡ false
    → live used (i ∷ is) ≡ i ∷ live used is
live_kept used i is e = rw (e, filterb)

dead_def :
    (used : List ℕ) (i : Instruction)
    → is_dead used i ≡ true
    → (side_effect_free i.opcode ≡ true) × ((d : ℕ) × (def i ≡ some d) × (elem d used ≡ false))
dead_def used i e =
    let (free, (d, ed, eu)) = is_dead_cases used i.opcode i.operands i.continuous e in
    (free, (d, free_def i.opcode i.operands d i.continuous free ed, eu))

module _ (m : Machine) where
  open m use {Value, World, Answer}

  -- The two runs end alike, with the same values in the used registers, or the second ended with the
  -- exception of an instruction that the pass calls free of side effects.
  pub data Alike (used : List ℕ) : Ran Value World Answer → Ran Value World Answer → Type 0 where
    both_ran : {ρ ρ' : ℕ → Value} {w : World} → Agree used ρ ρ' → Alike used (ran ρ w) (ran ρ' w)
    both_stopped : {a : Answer} → Alike used (stopped a) (stopped a)
    raised_second :
        {x : Ran Value World Answer} (i : Instruction)
        → side_effect_free i.opcode ≡ true
        → Alike used x (stopped (m.raised i))

  free_load :
      (o : Opcode)
      → side_effect_free o ≡ true
      → (f : (List Operand → (ℕ → Value) → World → Option Value)) × (load m o ≡ some f)
  free_load Opcode.load_const h = (_, refl)
  free_load Opcode.load_host h = (_, refl)
  free_load Opcode.load_env h = (_, refl)
  free_load Opcode.move h = (_, refl)
  free_load Opcode.make_function h = (_, refl)
  free_load Opcode.make_macro h = (_, refl)
  free_load Opcode.build_tuple h = (_, refl)
  free_load _ h = cc

  -- What the pass calls free of side effects raises, or gives a value and leaves the world alone.
  load_cases :
      (i : Instruction) (ρ : ℕ → Value) (w : World)
      → side_effect_free i.opcode ≡ true
      → (exec m i ρ w ≡ stop (m.raised i)) ⊎ ((v : Value) × (exec m i ρ w ≡ next v w))
  unfolding exec
  load_cases i ρ w h =
      let (f, e) = free_load i.opcode h in
      elim (Option-cases (f i.operands ρ w)) [
        | inl z ↦ inl (rw (e, z) refl)
        | inr (v, z) ↦ inr (v, rw (e, z) refl)
      ]

  -- One instruction, kept, and then runs that are alike.
  kept_Alike :
      (used : List ℕ) (s : Step Value World Answer) (d : Option ℕ) (ρ ρ' : ℕ → Value)
      (is js : List Instruction)
      → Agree used ρ ρ'
      → ((v : Value) (w : World)
          → Agree used (put d v ρ) (put d v ρ')
          → Alike used (run_instructions m is (put d v ρ) w) (run_instructions m js (put d v ρ') w))
      → Alike used
          (elim s [ next v w ↦ run_instructions m is (put d v ρ) w | stop a ↦ stopped a ])
          (elim s [ next v w ↦ run_instructions m js (put d v ρ') w | stop a ↦ stopped a ])
  kept_Alike used (next v w) d ρ ρ' is js h go = go v w (Agree-put d v used ρ ρ' h)
  kept_Alike used (stop a) d ρ ρ' is js h go = both_stopped

  pub sweep-Alike :
      (used : List ℕ) (is : List Instruction) (ρ ρ' : ℕ → Value) (w : World)
      → Covered used is
      → Agree used ρ ρ'
      → Alike used (run_instructions m (live used is) ρ w) (run_instructions m is ρ' w)
  unfolding run_instructions
  sweep-Alike used [] ρ ρ' w c h = both_ran h
  sweep-Alike used (i ∷ is) ρ ρ' w c h = elim (Bool-cases (is_dead used i)) [
    | inl dead ↦
        let (free, (d, ed, eu)) = dead_def used i dead in
        rw (live_dead used i is dead) (elim (load_cases i ρ' w free) [
          | inl e ↦ rw (e, run_instructions) (raised_second i free)
          | inr (v, ev) ↦
              rw (ev, run_instructions)
                (rw ed
                  (sweep-Alike used is ρ (put (some d) v ρ') w c.1 (Agree-skip d v used ρ ρ' eu h)))
        ])
    | inr kept ↦ rw (live_kept used i is kept) (
        rw (exec_reads m i ρ ρ' w (λ r k. h r (c.0 r k)), run_instructions)
          (kept_Alike used (exec m i ρ' w) (def i) ρ ρ' (live used is) is h
            (λ v w' h'. sweep-Alike used is (put (def i) v ρ) (put (def i) v ρ') w' c.1 h')))
  ]
