-- ===== src/Mir/Verify/Initial.antt =====
-- What the def-use check of qy/ir/mir/__init__.py is for: a function without a warning reads no
-- register that it has not written, so that what it does depends on its parameters alone.
use qy.Prelude.{
  ℕ, zero, suc, ◌≡◌, refl, sym, ap, ◌∙◌, subst, inl, inr, Option, some, List, [], ◌∷◌, ◌++◌,
  Option-cases, Bool-cases, ◌==◌, arith, ==_iff,
}
use qy.Prelude.Members.{In, In-append_cases, some_inj}
use qy.Mir.Node.{Instruction, Block, Function}
use qy.Mir.Operands.{def, written}
use qy.Mir.Semantics.{
  Step, next, stop, Leave, goto, halt, Agree, Machine, put, Ran, ran, stopped, run_instructions,
  find_block, enter, after, visit, run, exec,
}
use qy.Mir.Semantics.Reads.{exec_reads}
use qy.Mir.Dce.CoverTerminator.{IsPlain}
use qy.Mir.Dce.Preserves.{AllPlain}
use qy.Mir.Dce.Sweep.{Agree-put}
use qy.Mir.Verify.DefUse.{
  defined_by, instructions_exit, block_exit, param_defined, verify_def_use, perform_defined,
}
use qy.Mir.Verify.Tables.{
  defined_by-def, perform_defined-written, uses-opcode_uses, terminator_uses-exit_uses,
}
use qy.Mir.Verify.Defined.{Arrives, begin, follow, AllDefined, IsDefined, verify_def_use-IsDefined}
use qy.Mir.Verify.Accepted.{find_block-In}
use qy.Mir.Verify.Stays.{KeepsTargets}

put_same : {A : Type 0} (r : ℕ) (v : A) (ρ ρ' : ℕ → A) → put (some r) v ρ r ≡ put (some r) v ρ' r
put_same r v ρ ρ' = ground arith

-- A register that is written for certain is the same in both files behind the write.
Agree-written :
    {A : Type 0} (o : Option ℕ) (v : A) (new d : List ℕ) (ρ ρ' : ℕ → A)
    → ((r : ℕ) → In r new → o ≡ some r)
    → Agree d ρ ρ'
    → Agree (new ++ d) (put o v ρ) (put o v ρ')
Agree-written o v new d ρ ρ' h agree r m = elim (In-append_cases r new d m) [
  | inl k ↦ rw (h r k) (put_same r v ρ ρ')
  | inr k ↦ Agree-put o v d ρ ρ' agree r k
]

find_block-id : (id : ℕ) (bs : List Block) (b : Block) → find_block id bs ≡ some b → b.id ≡ id
unfolding find_block
find_block-id id [] b e = cc
find_block-id id (c ∷ bs) b e = elim (Bool-cases (c.id == id)) [
  | inl q ↦ ap (λ (x : Block). x.id) (sym (some_inj (rw q at e))) ∙ (==_iff c.id id).0 q
  | inr q ↦ find_block-id id bs b (rw q at e)
]

find_block-IsPlain :
    (id : ℕ) (bs : List Block) (b : Block)
    → AllPlain bs
    → find_block id bs ≡ some b
    → IsPlain b.terminator
unfolding find_block
find_block-IsPlain id [] b p e = cc
find_block-IsPlain id (c ∷ bs) b p e = elim (Bool-cases (c.id == id)) [
  | inl q ↦ subst (λ (x : Block). IsPlain x.terminator) (some_inj (rw q at e)) p.0
  | inr q ↦ find_block-IsPlain id bs b p.1 (rw q at e)
]

module _ (m : Machine) where
  open m use {Value, World, Answer, leave}

  -- The two runs end alike, with the same values in the registers of the list.
  data Alike (d : List ℕ) : Ran Value World Answer → Ran Value World Answer → Type 0 where
    both_ran : {ρ ρ' : ℕ → Value} {w : World} → Agree d ρ ρ' → Alike d (ran ρ w) (ran ρ' w)
    both_stopped : {a : Answer} → Alike d (stopped a) (stopped a)

  step-Alike :
      (d d' : List ℕ) (s : Step Value World Answer) (o : Option ℕ) (ρ ρ' : ℕ → Value)
      (is : List Instruction)
      → ((v : Value) (w : World)
          → Alike d' (run_instructions m is (put o v ρ) w) (run_instructions m is (put o v ρ') w))
      → Alike d'
          (elim s [ next v w ↦ run_instructions m is (put o v ρ) w | stop a ↦ stopped a ])
          (elim s [ next v w ↦ run_instructions m is (put o v ρ') w | stop a ↦ stopped a ])
  step-Alike d d' (next v w) o ρ ρ' is go = go v w
  step-Alike d d' (stop a) o ρ ρ' is go = both_stopped

  instructions-Alike :
      (is : List Instruction) (d : List ℕ) (ρ ρ' : ℕ → Value) (w : World)
      → AllDefined is d
      → Agree d ρ ρ'
      → Alike (instructions_exit is d) (run_instructions m is ρ w) (run_instructions m is ρ' w)
  unfolding run_instructions AllDefined instructions_exit
  instructions-Alike [] d ρ ρ' w k h = both_ran h
  instructions-Alike (i ∷ is) d ρ ρ' w (k, ks) h =
      rw (exec_reads m i ρ ρ' w (λ r u. h r (k r (uses-opcode_uses i r u))), run_instructions)
        (step-Alike d (instructions_exit is (defined_by i ++ d)) (exec m i ρ' w) (def i) ρ ρ' is
          (λ v w'.
            instructions-Alike is (defined_by i ++ d) (put (def i) v ρ) (put (def i) v ρ') w' ks
              (Agree-written (def i) v (defined_by i) d ρ ρ' (defined_by-def i) h)))

  -- Every path from the entry defines what the blocks on it use.
  abbrev PathsDefined : List Block → ℕ → List ℕ → Type 0
  PathsDefined bs entry params =
      (b : Block) (d : List ℕ) → In b bs → Arrives bs entry params b.id d → IsDefined b d

  enter_same :
      (d : List ℕ) (rest : ℕ → (ℕ → Value) → World → Option Answer) (o : Option ℕ) (new : List ℕ)
      (ρ ρ' : ℕ → Value) (l : Leave Value World Answer)
      → ((r : ℕ) → In r new → o ≡ some r)
      → Agree d ρ ρ'
      → ((id : ℕ) (v : Value) (w : World)
          → l ≡ goto id v w
          → (σ σ' : ℕ → Value) → Agree (new ++ d) σ σ'
          → rest id σ w ≡ rest id σ' w)
      → enter m rest o ρ l ≡ enter m rest o ρ' l
  unfolding enter
  enter_same d rest o new ρ ρ' (halt a) h agree go = refl
  enter_same d rest o new ρ ρ' (goto id v w) h agree go =
      go id v w refl (put o v ρ) (put o v ρ') (Agree-written o v new d ρ ρ' h agree)

  after-Alike :
      (bs : List Block) (entry : ℕ) (params d : List ℕ) (b : Block)
      (rest : ℕ → (ℕ → Value) → World → Option Answer) {x y : Ran Value World Answer}
      → KeepsTargets m
      → IsPlain b.terminator
      → In b bs
      → Arrives bs entry params b.id d
      → IsDefined b d
      → Alike (instructions_exit b.instructions d) x y
      → ((id : ℕ) (e : List ℕ) (σ σ' : ℕ → Value) (w : World)
          → Arrives bs entry params id e
          → Agree e σ σ'
          → rest id σ w ≡ rest id σ' w)
      → after m rest b x ≡ after m rest b y
  unfolding after block_exit
  after-Alike bs entry params d b rest keeps plain k a ok both_stopped go = refl
  after-Alike bs entry params d b rest keeps plain k a ok (both_ran {ρ} {ρ'} {w} h) go =
      rw
        (m.leave_reads b.terminator ρ ρ' w
          (λ r u. h r (ok.1 r (terminator_uses-exit_uses b.terminator r plain u))))
        (enter_same (instructions_exit b.instructions d) rest (written b.terminator)
          (perform_defined b.terminator.opcode b.terminator.operands) ρ ρ' (leave b.terminator ρ' w)
          (perform_defined-written b.terminator) h
          (λ id v w' e σ σ' agree.
            go id (block_exit b d) σ σ' w' (follow b id a k (keeps b.terminator ρ' w id v w' e))
              agree))

  run_same :
      (bs : List Block) (entry : ℕ) (params : List ℕ) (fuel id : ℕ) (d : List ℕ) (ρ ρ' : ℕ → Value)
      (w : World)
      → KeepsTargets m
      → AllPlain bs
      → PathsDefined bs entry params
      → Arrives bs entry params id d
      → Agree d ρ ρ'
      → run m fuel bs id ρ w ≡ run m fuel bs id ρ' w
  unfolding run visit
  run_same bs entry params zero id d ρ ρ' w keeps plain paths a h = refl
  run_same bs entry params (suc fuel) id d ρ ρ' w keeps plain paths a h =
      elim (Option-cases (find_block id bs)) [
        | inl e ↦ rw e refl
        | inr (b, e) ↦
            let k = find_block-In id bs b e in
            let a' =
              subst (λ (x : ℕ). Arrives bs entry params x d) (sym (find_block-id id bs b e)) a in
            let ok = paths b d k a' in
            rw e (
              after-Alike bs entry params d b (run m fuel bs) keeps
                (find_block-IsPlain id bs b plain e) k a' ok
                (instructions-Alike b.instructions d ρ ρ' w ok.0 h)
                (λ id' d' σ σ' w' a'' agree.
                  run_same bs entry params fuel id' d' σ σ' w' keeps plain paths a'' agree))
      ]

  -- Where the check warns of nothing, a function that starts at its first block, with no tuple for
  -- a single register of a terminator, does the same from two register files with the same
  -- parameters: within the same number of blocks it gives the same answer, on every machine that
  -- reads and writes the registers that the register tables name and goes to the targets of its
  -- terminators.
  pub verify_def_use-run :
      (f : Function) (c : Block) (cs : List Block) (fuel : ℕ) (ρ ρ' : ℕ → Value) (w : World)
      → f.blocks ≡ c ∷ cs
      → f.entry ≡ c.id
      → AllPlain f.blocks
      → verify_def_use f ≡ []
      → KeepsTargets m
      → Agree (param_defined f) ρ ρ'
      → run m fuel f.blocks f.entry ρ w ≡ run m fuel f.blocks f.entry ρ' w
  verify_def_use-run f c cs fuel ρ ρ' w q start plain h keeps agree =
      run_same f.blocks c.id (param_defined f) fuel f.entry (param_defined f) ρ ρ' w keeps plain
        (λ b d k a. verify_def_use-IsDefined f c cs b d q h k a) (rw start begin) agree
