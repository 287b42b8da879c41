-- ===== src/Mir/Verify/Registers.antt =====
-- What the checks of an instruction or a terminator ensure: with no problem, every register that
-- the tables name is below the register count, and every target is a block.
use Prim.Native.Nat.{min}
use qy.Prelude.{
  ℕ, zero, suc, ◌<◌, ◌≡◌, refl, subst, sym, ◌⊎◌, inl, inr, Option, some, none, List, [], ◌∷◌, ◌++◌,
  length, arith,
}
use qy.Prelude.Members.{In, some_inj}
use qy.Mir.Node.{
  Item, reg, thing, Operand, int, boolean, bit, tuple, object, Opcode, append_result, all_gather,
  apply, build_tuple, cache_eval, call, defeffect, define_module, define_once, effect_handle_begin,
  effect_handle_end, effect_resume, enter_scope, exit_scope, from_import, load_const, load_host,
  load_env, make_function, make_macro, move, parallel_gather, race_first, runtime_eval, store_local,
  Instruction,
}
use qy.Mir.Operands.{
  int_at, tuple_ints_at, item_ints, register_positions, tuple_positions, range, when_least, uses,
  def, def_position, register_def_position, int_at?, first, when_any, register_operand_positions,
  register_tuple_positions,
}
use qy.Mir.Dce.Cover.{In-range_from, In-when_least, read_at}
use qy.Mir.Verify.Problem.{Problem}
use qy.Mir.Verify.Schema.{
  at, check_int_operand, with_arity, two_registers, three_registers, first_register, check_range,
  check_register, check_items, check_register_tuple, check_registers, verify_operands,
  verify_instruction,
}

pub append-nil : {A : Type 0} (xs ys : List A) → xs ++ ys ≡ [] → (xs ≡ []) × (ys ≡ [])
append-nil [] ys h = (refl, h)
append-nil (x ∷ xs) ys h = cc

pub with_arity-nil :
    (n : ℕ) (ops : List Operand) (rest : List Problem) → with_arity n ops rest ≡ [] → rest ≡ []
with_arity-nil n ops rest h = ground arith

handle_end_def : (ops : List Operand) (d : ℕ) → def_position effect_handle_end ops ≡ some d → 1 ≡ d
handle_end_def [] d e = cc
handle_end_def (_ ∷ []) d e = cc
handle_end_def (_ ∷ _ ∷ ops) d e = ground arith

pub first-In : (rs : List ℕ) (r : ℕ) → first rs ≡ some r → In r rs
first-In [] r e = cc
first-In (x ∷ rs) r e = inl (sym (some_inj e))

int_at?-inv :
    (d : Option ℕ) (ops : List Operand) (r : ℕ)
    → int_at? d ops ≡ some r
    → (p : ℕ) × (d ≡ some p) × In r (int_at p ops)
int_at?-inv none ops r e = cc
int_at?-inv (some p) ops r e = (p, refl, first-In (int_at p ops) r e)

when_any-inv : (ops : List Operand) (d : Option ℕ) (p : ℕ) → when_any ops d ≡ some p → d ≡ some p
when_any-inv [] d p e = cc
when_any-inv (_ ∷ _) d p e = e

-- The registers at a position are below the count.
abbrev pub Below : ℕ → List ℕ → Type 0
Below n rs = (r : ℕ) → In r rs → r < n

module _ (n : ℕ) where
  pub check_range_lem : (r : ℕ) → check_range n r ≡ [] → r < n
  check_range_lem r h = ground arith

  pub check_register_lem :
      (i : ℕ) (ops : List Operand) → at i (check_register n) ops ≡ [] → Below n (int_at i ops)
  check_register_lem i [] h r k = absurd k
  check_register_lem zero (int m ∷ ops) h r (inl q) = rw q (check_range_lem m h)
  check_register_lem zero (int m ∷ ops) h r (inr k) = absurd k
  check_register_lem zero (boolean b ∷ ops) h r (inl q) = rw q (check_range_lem (bit b) h)
  check_register_lem zero (boolean b ∷ ops) h r (inr k) = absurd k
  check_register_lem zero (tuple _ ∷ ops) h r k = absurd k
  check_register_lem zero (object _ ∷ ops) h r k = absurd k
  check_register_lem (suc i) (o ∷ ops) h r k = check_register_lem i ops h r k

  check_items_lem : (items : List Item) → check_items n items ≡ [] → Below n (item_ints items)
  check_items_lem [] h r k = absurd k
  check_items_lem (reg m ∷ items) h r (inl q) =
      rw q (check_range_lem m (append-nil (check_range n m) (check_items n items) h).0)
  check_items_lem (reg m ∷ items) h r (inr k) =
      check_items_lem items (append-nil (check_range n m) (check_items n items) h).1 r k
  check_items_lem (thing _ ∷ items) h r k = cc

  pub check_register_tuple_lem :
      (i : ℕ) (ops : List Operand)
      → at i (check_register_tuple n) ops ≡ []
      → Below n (tuple_ints_at i ops)
  check_register_tuple_lem i [] h r k = absurd k
  check_register_tuple_lem zero (tuple items ∷ ops) h r k = check_items_lem items h r k
  check_register_tuple_lem zero (int _ ∷ ops) h r k = absurd k
  check_register_tuple_lem zero (boolean _ ∷ ops) h r k = absurd k
  check_register_tuple_lem zero (object _ ∷ ops) h r k = absurd k
  check_register_tuple_lem (suc i) (o ∷ ops) h r k = check_register_tuple_lem i ops h r k

  check_registers_lem :
      (i : ℕ) (ops : List Operand) → check_registers n ops ≡ [] → Below n (int_at i ops)
  check_registers_lem i [] h r k = absurd k
  check_registers_lem zero (o ∷ ops) h r k =
      check_register_lem zero (o ∷ ops)
        (append-nil (check_register n o) (check_registers n ops) h).0 r k
  check_registers_lem (suc i) (o ∷ ops) h r k =
      check_registers_lem i ops (append-nil (check_register n o) (check_registers n ops) h).1 r k

  -- A register operand at one of the positions is below the count.
  abbrev CheckedAt : List ℕ → List Operand → Type 0
  CheckedAt ps ops = (p r : ℕ) → In p ps → In r (int_at p ops) → r < n

  abbrev NoProblem : ℕ → List Operand → Type 0
  NoProblem i ops = at i (check_register n) ops ≡ []

  one_CheckedAt :
      (m i : ℕ) (ops : List Operand) → NoProblem i ops → CheckedAt (when_least m ops (i ∷ [])) ops
  one_CheckedAt m i ops h p r k l = elim (In-when_least m ops (i ∷ []) p k) [
    | inl q ↦ check_register_lem i ops h r (rw q at l)
    | inr e ↦ absurd e
  ]

  upto_CheckedAt :
      (p r : ℕ) (ops : List Operand)
      → p < 3
      → NoProblem 0 ops
      → NoProblem 1 ops
      → p < 2 ⊎ NoProblem 2 ops
      → In r (int_at p ops)
      → r < n
  upto_CheckedAt zero r ops m h0 h1 h2 l = check_register_lem 0 ops h0 r l
  upto_CheckedAt (suc zero) r ops m h0 h1 h2 l = check_register_lem 1 ops h1 r l
  upto_CheckedAt (suc (suc zero)) r ops m h0 h1 (inl e) l = absurd (omega arith)
  upto_CheckedAt (suc (suc zero)) r ops m h0 h1 (inr h) l = check_register_lem 2 ops h r l
  upto_CheckedAt (suc (suc (suc p))) r ops m h0 h1 h2 l = absurd (omega arith)

  two_CheckedAt :
      (ops : List Operand)
      → two_registers n ops ≡ []
      → CheckedAt (when_least 2 ops (range (min 2 (length ops)))) ops
  two_CheckedAt ops h p r k l =
      let (h0, h1) = append-nil _ (at 1 (check_register n) ops) (with_arity-nil 2 ops _ h) in
      let q =
        In-range_from 0 (min 2 (length ops)) p
          (In-when_least 2 ops (range (min 2 (length ops))) p k) in
      upto_CheckedAt p r ops (omega arith) h0 h1 (inl (omega arith)) l

  three_CheckedAt :
      (ops : List Operand) → three_registers n ops ≡ [] → CheckedAt (range (min 3 (length ops))) ops
  three_CheckedAt ops h p r k l =
      let (h0, h') = append-nil _ _ (with_arity-nil 3 ops _ h) in
      let (h1, h2) = append-nil _ (at 2 (check_register n) ops) h' in
      let q = In-range_from 0 (min 3 (length ops)) p k in
      upto_CheckedAt p r ops (omega arith) h0 h1 (inr h2) l

  first_CheckedAt :
      (m : ℕ) (ops : List Operand) (rest : List Problem)
      → with_arity m ops (at 0 (check_register n) ops ++ rest) ≡ []
      → CheckedAt (when_least 1 ops (0 ∷ [])) ops
  first_CheckedAt m ops rest h =
      one_CheckedAt 1 0 ops (append-nil _ rest (with_arity-nil m ops _ h)).0

  gathered_CheckedAt :
      (ops : List Operand) → first_register n ops ≡ [] → CheckedAt (when_least 1 ops (0 ∷ [])) ops
  gathered_CheckedAt [] h p r k l = absurd l
  gathered_CheckedAt (o ∷ ops) h p r k l = one_CheckedAt 1 0 (o ∷ ops) h p r k l

  opcode_registers :
      (o : Opcode) (ops : List Operand)
      → verify_operands n o ops ≡ []
      → CheckedAt (register_positions o ops) ops
  opcode_registers append_result ops h p r k l =
      one_CheckedAt 1 0 ops (with_arity-nil 1 ops _ h) p r k l
  opcode_registers all_gather ops h p r k l = gathered_CheckedAt ops h p r k l
  opcode_registers parallel_gather ops h p r k l = gathered_CheckedAt ops h p r k l
  opcode_registers race_first ops h p r k l = gathered_CheckedAt ops h p r k l
  opcode_registers cache_eval ops h p r k l =
      one_CheckedAt 1 0 ops (with_arity-nil 3 ops _ h) p r k l
  opcode_registers load_host ops h p r k l =
      one_CheckedAt 1 0 ops (with_arity-nil 2 ops _ h) p r k l
  opcode_registers define_module ops h p r k l = first_CheckedAt 4 ops _ h p r k l
  opcode_registers load_const ops h p r k l = first_CheckedAt 2 ops _ h p r k l
  opcode_registers load_env ops h p r k l = first_CheckedAt 2 ops _ h p r k l
  opcode_registers make_function ops h p r k l = first_CheckedAt 2 ops _ h p r k l
  opcode_registers make_macro ops h p r k l = first_CheckedAt 4 ops _ h p r k l
  opcode_registers apply ops h p r k l = three_CheckedAt ops h p r k l
  opcode_registers effect_resume ops h p r k l = three_CheckedAt ops h p r k l
  opcode_registers move ops h p r k l = two_CheckedAt ops h p r k l
  opcode_registers runtime_eval ops h p r k l = two_CheckedAt ops h p r k l
  opcode_registers call ops h p r k l =
      let (h0, h') = append-nil _ _ (with_arity-nil 3 ops _ h) in
      let (h1, h2) = append-nil _ (at 2 (check_register_tuple n) ops) h' in
      let q =
        In-range_from 0 (min 2 (length ops)) p
          (In-when_least 2 ops (range (min 2 (length ops))) p k) in
      upto_CheckedAt p r ops (omega arith) h0 h1 (inl (omega arith)) l
  opcode_registers store_local ops h p r k l =
      one_CheckedAt 2 1 ops (append-nil _ _ (with_arity-nil 2 ops _ h)).1 p r k l
  opcode_registers define_once ops h p r k l =
      one_CheckedAt 2 1 ops (append-nil _ _ (with_arity-nil 2 ops _ h)).1 p r k l
  opcode_registers effect_handle_end ops h p r k l =
      one_CheckedAt 2 1 ops (append-nil _ _ (with_arity-nil 2 ops _ h)).1 p r k l
  opcode_registers build_tuple [] h p r k l = absurd l
  opcode_registers build_tuple (o ∷ ops) h p r k l = check_registers_lem p (o ∷ ops) h r l
  opcode_registers defeffect ops h p r k l = absurd k
  opcode_registers effect_handle_begin ops h p r k l = absurd k
  opcode_registers enter_scope ops h p r k l = absurd k
  opcode_registers exit_scope ops h p r k l = absurd k
  opcode_registers from_import ops h p r k l = absurd k

  opcode_tuples :
      (o : Opcode) (ops : List Operand) (p r : ℕ)
      → verify_operands n o ops ≡ []
      → In p (tuple_positions o ops)
      → In r (tuple_ints_at p ops)
      → r < n
  opcode_tuples call ops p r h k l =
      let (h0, h') = append-nil _ _ (with_arity-nil 3 ops _ h) in
      let (h1, h2) = append-nil (at 1 (check_register n) ops) _ h' in
      elim (In-when_least 3 ops (2 ∷ []) p k) [
        | inl q ↦ check_register_tuple_lem 2 ops h2 r (rw q at l)
        | inr e ↦ absurd e
      ]
  opcode_tuples _ ops p r h k l = absurd k

  -- Every register that an instruction without a problem reads is below the count.
  pub uses-Below : (i : Instruction) → verify_instruction n i ≡ [] → Below n (uses i)
  unfolding verify_instruction register_operand_positions register_tuple_positions
  uses-Below i h r k = elim (read_at i r k) [
    | inl (p, m, _, l) ↦ opcode_registers i.opcode i.operands h p r m l
    | inr (p, m, l) ↦ opcode_tuples i.opcode i.operands p r h m l
  ]

  def_first :
      (m : ℕ) (ops : List Operand) (rest : List Problem) (d : ℕ)
      → with_arity m ops (at 0 (check_register n) ops ++ rest) ≡ []
      → some 0 ≡ some d
      → NoProblem d ops
  def_first m ops rest d h e = rw (← some_inj e) (append-nil _ rest (with_arity-nil m ops _ h)).0

  def_checked :
      (o : Opcode) (ops : List Operand) (d : ℕ)
      → verify_operands n o ops ≡ []
      → def_position o ops ≡ some d
      → NoProblem d ops
  def_checked load_const ops d h e = def_first 2 ops _ d h e
  def_checked load_host ops d h e = rw (← some_inj e) (with_arity-nil 2 ops _ h)
  def_checked load_env ops d h e = def_first 2 ops _ d h e
  def_checked move ops d h e = def_first 2 ops _ d h e
  def_checked make_function ops d h e = def_first 2 ops _ d h e
  def_checked make_macro ops d h e = def_first 4 ops _ d h e
  def_checked build_tuple [] d h e = refl
  def_checked build_tuple (o ∷ ops) d h e = rw (← some_inj e) (append-nil _ _ h).0
  def_checked call ops d h e = def_first 3 ops _ d h e
  def_checked apply ops d h e = def_first 3 ops _ d h e
  def_checked runtime_eval ops d h e = def_first 2 ops _ d h e
  def_checked cache_eval ops d h e = rw (← some_inj e) (with_arity-nil 3 ops _ h)
  def_checked define_module ops d h e = def_first 4 ops _ d h e
  def_checked all_gather [] d h e = refl
  def_checked all_gather (o ∷ ops) d h e = rw (← some_inj e) h
  def_checked parallel_gather [] d h e = refl
  def_checked parallel_gather (o ∷ ops) d h e = rw (← some_inj e) h
  def_checked race_first [] d h e = refl
  def_checked race_first (o ∷ ops) d h e = rw (← some_inj e) h
  def_checked effect_handle_end ops d h e =
      subst (λ (q : ℕ). NoProblem q ops) (handle_end_def ops d e)
        (append-nil (at 0 check_int_operand ops) _ (with_arity-nil 2 ops _ h)).1
  def_checked effect_resume ops d h e = def_first 3 ops _ d h e
  def_checked _ ops d h e = cc

  -- The register that an instruction without a problem writes is below the count.
  pub def-Below : (i : Instruction) (r : ℕ) → verify_instruction n i ≡ [] → def i ≡ some r → r < n
  unfolding verify_instruction def register_def_position
  def-Below i r h e =
      let (p, q, l) =
        int_at?-inv (when_any i.operands (def_position i.opcode i.operands)) i.operands r e in
      check_register_lem p i.operands
        (def_checked i.opcode i.operands p h (when_any-inv i.operands _ p q)) r l
