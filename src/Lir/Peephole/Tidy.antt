-- ===== src/Lir/Peephole/Tidy.antt =====
-- What peephole does: the loads of None and T get their own opcodes, a MOVE of an operand to itself
-- goes, and nothing is forwarded.
use qy.Prelude.{
  ℕ, suc, ◌≡◌, refl, sym, subst, ◌∙◌, ap, Bool, true, false, ◌||◌, Option, none, some, List, [],
  ◌∷◌, ◌==◌, ◌>>=◌, >>=-eq-some, if◌then◌else◌,
}
use qy.Prelude.Members.{some_inj}
use qy.Prelude.Int.{ℤ}
use qy.Mir.Node.{as_int, Operand, int, boolean, tuple, object, symbol, minus, nothing, other}
use qy.Lir.Node.{Opcode, move, load_host, load_t, Instruction}
use qy.Lir.Peephole.{
  used_registers, Visit, drop, replace, keep, put, is_change, Round, forward_ints, load, visit_load,
  visit_move, visit, by_opcode, visit_all, peephole,
}
use qy.Lir.Peephole.Used.{IsUsed, StartUsed, AllUsed, used_registers-AllUsed}

same_branches : {A : Type 0} (b : Bool) (x : A) → (if b then x else x) ≡ x
same_branches true x = refl
same_branches false x = refl

abbrev put_round : Visit → Round → Round
put_round v x = record { result = put v x.result; changed = is_change v || x.changed }

-- What both sides of a step make of the visit and of the rest.
round_result :
    (m : Option Visit) (r : Option Round)
    → (m >>= λ v. (r >>= λ x. some x.result) >>= λ rest. some (put v rest))
      ≡ ((m >>= λ v. r >>= λ x. some (put_round v x)) >>= λ x. some x.result)
round_result none r = refl
round_result (some v) none = refl
round_result (some v) (some x) = refl

module _ (same : Operand → Operand → Bool) (truth : ℕ) where
  abbrev tidy_move : Instruction → List Operand → Option Visit
  tidy_move i (dest ∷ src ∷ _) = some (if same dest src then drop else keep i)
  tidy_move i _ = none

  -- What becomes of an instruction, whatever registers are used.
  abbrev tidy_visit : Instruction → Option Visit
  tidy_visit i =
      by_opcode (tidy_move i i.operands) (visit_load truth i i.operands) (keep i) i.opcode

  unfoldable pub tidy : List Instruction → Option (List Instruction)
  tidy [] = some []
  tidy (i ∷ is) = do v ← tidy_visit i; rest ← tidy is; some (put v rest)

  forward_ints-keep :
      (used : List ℤ) (i : Instruction) (dest src : Option ℤ)
      → IsUsed used dest
      → forward_ints used i dest src ≡ keep i
  forward_ints-keep used i none src t = refl
  forward_ints-keep used i (some d) none t = refl
  forward_ints-keep used i (some d) (some s) t = rw t refl

  visit_move-tidy :
      (used : List ℤ) (i : Instruction) (ops : List Operand)
      → StartUsed used ops
      → visit_move same truth used i ops ≡ tidy_move i ops
  visit_move-tidy used i [] t = refl
  visit_move-tidy used i (_ ∷ []) t = refl
  visit_move-tidy used i (d ∷ s ∷ _) t =
      ap (λ (v : Visit). some (if same d s then drop else v))
        (forward_ints-keep used i (as_int d) (as_int s) t)

  visit-tidy :
      (used : List ℤ) (i : Instruction)
      → StartUsed used i.operands
      → visit same truth used i ≡ tidy_visit i
  visit-tidy used i t =
      ap (λ (m : Option Visit). by_opcode m (visit_load truth i i.operands) (keep i) i.opcode)
        (visit_move-tidy used i i.operands t)

  -- A round as it is without a look at the used registers.
  abbrev tidy_round : List Instruction → Option Round
  tidy_round [] = some (record { result = []; changed = false })
  tidy_round (i ∷ is) = do
    v ← tidy_visit i
    rest ← tidy_round is
    some (record { result = put v rest.result; changed = is_change v || rest.changed })

  visit_all-tidy_round :
      (used : List ℤ) (is : List Instruction)
      → AllUsed used is
      → visit_all same truth used is ≡ tidy_round is
  unfolding visit_all
  visit_all-tidy_round used [] t = refl
  visit_all-tidy_round used (i ∷ is) (s, t) =
      rw (visit-tidy used i s, visit_all-tidy_round used is t) refl

  tidy-tidy_round : (is : List Instruction) → tidy is ≡ (tidy_round is >>= λ r. some r.result)
  unfolding tidy
  tidy-tidy_round [] = refl
  tidy-tidy_round (i ∷ is) = rw (tidy-tidy_round is) (round_result (tidy_visit i) (tidy_round is))

  -- A visit leaves what it puts in place as it is.
  abbrev IsStable : Visit → Type 0
  IsStable drop = Unit
  IsStable (replace i) = tidy_visit i ≡ some (keep i)
  IsStable (keep i) = tidy_visit i ≡ some (keep i)

  move-IsStable :
      (i : Instruction) (d s : Operand) (b : Bool)
      → tidy_visit i ≡ some (if same d s then drop else keep i)
      → same d s ≡ b
      → IsStable (if b then drop else keep i)
  move-IsStable i d s true h q = tt
  move-IsStable i d s false h q = rw q at h

  truth-IsStable :
      (i : Instruction) (r : Operand) (t : ℕ) (b : Bool)
      → tidy_visit i ≡ some (if t == truth then replace (load load_t r) else keep i)
      → (t == truth) ≡ b
      → IsStable (if b then replace (load load_t r) else keep i)
  truth-IsStable i r t true h q = refl
  truth-IsStable i r t false h q = rw q at h

  load-IsStable :
      (c : Bool) (ops : List Operand)
      → IsStable
          (visit_load truth (record { opcode = load_host; operands = ops; continuous = c }) ops)
  load-IsStable c [] = refl
  load-IsStable c (_ ∷ []) = refl
  load-IsStable c (r ∷ int n ∷ _) = refl
  load-IsStable c (r ∷ boolean b ∷ _) = refl
  load-IsStable c (r ∷ tuple t ∷ _) = refl
  load-IsStable c (r ∷ object (symbol n) ∷ _) = refl
  load-IsStable c (r ∷ object (minus n) ∷ _) = refl
  load-IsStable c (r ∷ object nothing ∷ _) = refl
  load-IsStable c (r ∷ object (other t) ∷ _) = truth-IsStable _ r t (t == truth) refl refl

  visit-IsStable :
      (o : Opcode) (ops : List Operand) (c : Bool) (v : Visit)
      → tidy_visit (record { opcode = o; operands = ops; continuous = c }) ≡ some v
      → IsStable v
  visit-IsStable move [] c v h = cc
  visit-IsStable move (_ ∷ []) c v h = cc
  visit-IsStable move (d ∷ s ∷ _) c v h =
      subst IsStable (some_inj h) (move-IsStable _ d s (same d s) refl refl)
  visit-IsStable load_host ops c v h = subst IsStable (some_inj h) (load-IsStable c ops)
  visit-IsStable _ ops c v h = subst IsStable (some_inj h) refl

  put-tidy_round :
      (v : Visit) (is : List Instruction)
      → IsStable v
      → tidy_round is ≡ some (record { result = is; changed = false })
      → tidy_round (put v is) ≡ some (record { result = put v is; changed = false })
  put-tidy_round drop is t h = h
  put-tidy_round (replace i) is t h = rw (t, h) refl
  put-tidy_round (keep i) is t h = rw (t, h) refl

  -- A second round changes nothing.
  tidy_round-stable :
      (is : List Instruction) (r : Round)
      → tidy_round is ≡ some r
      → tidy_round r.result ≡ some (record { result = r.result; changed = false })
  tidy_round-stable [] r h =
      subst
        (λ (x : Round). tidy_round x.result ≡ some (record { result = x.result; changed = false }))
        (some_inj h) refl
  tidy_round-stable (i ∷ is) r h =
      let (v, q, h') = >>=-eq-some (tidy_visit i) _ h in
      let (x, s, h'') = >>=-eq-some (tidy_round is) _ h' in
      subst
        (λ (y : Round). tidy_round y.result ≡ some (record { result = y.result; changed = false }))
        (some_inj h'')
        (put-tidy_round v x.result (visit-IsStable i.opcode i.operands i.continuous v q)
          (tidy_round-stable is x s))

  rounds :
      (fuel : ℕ) (is : List Instruction) (m : Option Round)
      → tidy_round is ≡ m
      → peephole same truth (suc (suc fuel)) is ≡ (m >>= λ r. some r.result)
  unfolding peephole
  rounds fuel is none h =
      rw (visit_all-tidy_round (used_registers is) is (used_registers-AllUsed is), h) refl
  rounds fuel is (some r) h =
      rw
        (
          visit_all-tidy_round (used_registers is) is (used_registers-AllUsed is),
          h,
          visit_all-tidy_round (used_registers r.result) r.result (used_registers-AllUsed r.result),
          tidy_round-stable is r h,
        )
        (same_branches r.changed (some r.result))

  -- The pass ends after two rounds at most, and gives what one walk gives that looks at no other
  -- instruction: a MOVE of an operand to itself goes, a LOAD_HOST of None or T becomes LOAD_NIL or
  -- LOAD_T, and everything else stays; it fails where a MOVE has fewer than two operands. So the
  -- pass forwards no copy.
  pub peephole-tidy :
      (fuel : ℕ) (is : List Instruction) → peephole same truth (suc (suc fuel)) is ≡ tidy is
  peephole-tidy fuel is = rounds fuel is (tidy_round is) refl ∙ sym (tidy-tidy_round is)
