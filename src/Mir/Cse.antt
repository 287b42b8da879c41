-- ===== src/Mir/Cse.antt =====
-- qy/passes/optimize/cse.py: common subexpression elimination. Whether two operand tuples are equal
-- in Python, which decides over the keys of a dict, is a parameter.
use qy.Prelude.{
  ℕ, zero, suc, ◌≡◌, refl, inl, inr, Bool, true, false, not, ◌||◌, Option, none, some, List, [],
  ◌∷◌, filterb, ◌==◌, if◌then◌else◌, arith, Bool-cases,
}
use qy.Prelude.Members.{elem, some_inj}
use qy.Mir.Node.{
  Operand, int, boolean, bit, Opcode, load_const, load_host, load_env, make_function, make_macro,
  move, Instruction, Block, Function,
}

-- _CSE_SAFE_OPCODES
abbrev pub cse_safe : Opcode → Bool
cse_safe load_const = true
cse_safe load_host = true
cse_safe load_env = true
cse_safe make_function = true
cse_safe make_macro = true
cse_safe _ = false

abbrev pub defines_first : Opcode → Bool
defines_first move = true
defines_first o = cse_safe o

abbrev pub first_register : List Operand → Option ℕ
first_register (int d ∷ _) = some d
first_register (boolean b ∷ _) = some (bit b)
first_register _ = none

-- _def
unfoldable pub cse_def : Instruction → Option ℕ
cse_def i = if defines_first i.opcode then first_register i.operands else none

-- An entry of expr_map: the canonical key of an expression, and its register.
pub record Expression : Type 0 where
  pub opcode : Opcode
  pub operands : List Operand
  pub dest : ℕ

-- expr_map and defs.
pub record Known : Type 0 where
  pub expr_map : List Expression
  pub defs : List ℕ

-- What a round makes of the instructions, and its `changed`.
pub record Round (A : Type 0) : Type 0 where
  pub result : A
  pub changed : Bool
  pub known : Known

module _ (same_key : Opcode → List Operand → Opcode → List Operand → Bool) where
  unfoldable pub get_expression : Instruction → List Expression → Option ℕ
  get_expression i [] = none
  get_expression i (e ∷ es) =
      if same_key e.opcode e.operands i.opcode i.operands then some e.dest else get_expression i es

  abbrev pub add_expression : Instruction → ℕ → Known → Known
  add_expression i d k = record k {
    expr_map =
        record { opcode = i.opcode; operands = i.operands; dest = d }
        ∷ filterb (λ e. not (same_key e.opcode e.operands i.opcode i.operands)) k.expr_map;
  }

  -- The register is defined again, and the expressions that it held are forgotten.
  abbrev pub define_register : ℕ → Known → Known
  define_register d k = record {
    expr_map = filterb (λ e. not (e.dest == d)) k.expr_map;
    defs = d ∷ k.defs;
  }

  abbrev pub move_from : Instruction → ℕ → ℕ → Instruction
  move_from i d existing = record {
    opcode = move;
    operands = int d ∷ int existing ∷ [];
    continuous = false;
  }

  abbrev pub keep : Instruction → Known → Round Instruction
  keep i k = record { result = i; changed = false; known = k }

  abbrev pub reuse : Instruction → ℕ → Known → Option ℕ → Round Instruction
  reuse i d k none = keep i (add_expression i d k)
  reuse i d k (some existing) =
      if elem existing k.defs
      then keep i (add_expression i d k)
      else record { result = move_from i d existing; changed = true; known = k }

  abbrev pub visit_defined : Instruction → Option ℕ → Known → Round Instruction
  visit_defined i none k = keep i k
  visit_defined i (some d) k =
      let k' = define_register d k in
      if cse_safe i.opcode then reuse i d k' (get_expression i k'.expr_map) else keep i k'

  unfoldable pub cse_instruction : Instruction → Known → Round Instruction
  cse_instruction i k = visit_defined i (cse_def i) k

  unfoldable pub cse_instructions : List Instruction → Known → Round (List Instruction)
  cse_instructions [] k = record { result = []; changed = false; known = k }
  cse_instructions (i ∷ is) k =
      let r = cse_instruction i k in
      let s = cse_instructions is r.known in
      record { result = r.result ∷ s.result; changed = r.changed || s.changed; known = s.known }

  unfoldable pub cse_blocks : List Block → Known → Round (List Block)
  cse_blocks [] k = record { result = []; changed = false; known = k }
  cse_blocks (b ∷ bs) k =
      let r = cse_instructions b.instructions k in
      let s = cse_blocks bs r.known in
      record {
        result = record b { instructions = r.result } ∷ s.result;
        changed = r.changed || s.changed;
        known = s.known;
      }

  -- `while changed`, a unit of fuel for each round.
  unfoldable pub cse_loop : ℕ → List Block → Option (List Block)
  cse_loop zero bs = none
  cse_loop (suc fuel) bs =
      let r = cse_blocks bs (record { expr_map = []; defs = [] }) in
      let again = cse_loop fuel r.result in if r.changed then again else some r.result

  abbrev pub with_blocks : Function → Option (List Block) → Option Function
  with_blocks f none = none
  with_blocks f (some bs) = some (record f { blocks = bs })

  -- _eliminate_cse, on fuel.
  unfoldable pub eliminate_cse : ℕ → Function → Option Function
  eliminate_cse fuel f = with_blocks f (cse_loop fuel f.blocks)

  -- The register of every known expression has been defined.
  abbrev AllDefined : List ℕ → List Expression → Type 0
  AllDefined defs [] = Unit
  AllDefined defs (e ∷ es) = (elem e.dest defs ≡ true) × AllDefined defs es

  abbrev IsDefined : Known → Type 0
  IsDefined k = AllDefined k.defs k.expr_map

  -- A round that leaves what it visits as it is.
  abbrev Unchanged : {A : Type 0} → A → Round A → Type 0
  Unchanged a r = (r.result ≡ a) × (r.changed ≡ false) × IsDefined r.known

  AllDefined-filterb :
      (q : Expression → Bool) (defs : List ℕ) (es : List Expression)
      → AllDefined defs es
      → AllDefined defs (filterb q es)
  AllDefined-filterb q defs [] h = tt
  AllDefined-filterb q defs (e ∷ es) h = elim (Bool-cases (q e)) [
    | inl c ↦ rw (c, filterb) (h.0, AllDefined-filterb q defs es h.1)
    | inr c ↦ rw (c, filterb) (AllDefined-filterb q defs es h.1)
  ]

  AllDefined-more :
      (d : ℕ) (defs : List ℕ) (es : List Expression) → AllDefined defs es → AllDefined (d ∷ defs) es
  AllDefined-more d defs [] h = tt
  AllDefined-more d defs (e ∷ es) h = (ground (arith, h.0), AllDefined-more d defs es h.1)

  found-defined :
      (i : Instruction) (defs : List ℕ) (es : List Expression) (r : ℕ)
      → AllDefined defs es
      → get_expression i es ≡ some r
      → elem r defs ≡ true
  unfolding get_expression
  found-defined i defs [] r h q = cc
  found-defined i defs (e ∷ es) r h q =
      elim (Bool-cases (same_key e.opcode e.operands i.opcode i.operands)) [
        | inl c ↦ rw (← some_inj (rw c at q)) h.0
        | inr c ↦ found-defined i defs es r h.1 (rw c at q)
      ]

  add-IsDefined :
      (i : Instruction) (d : ℕ) (k : Known)
      → elem d k.defs ≡ true
      → IsDefined k
      → IsDefined (add_expression i d k)
  add-IsDefined i d k e h = (
    e,
    AllDefined-filterb (λ x. not (same_key x.opcode x.operands i.opcode i.operands)) k.defs
        k.expr_map h,
  )

  define-IsDefined : (d : ℕ) (k : Known) → IsDefined k → IsDefined (define_register d k)
  define-IsDefined d k h =
      AllDefined-more d k.defs (filterb (λ e. not (e.dest == d)) k.expr_map)
        (AllDefined-filterb (λ e. not (e.dest == d)) k.defs k.expr_map h)

  reuse-Unchanged :
      (i : Instruction) (d : ℕ) (k : Known) (o : Option ℕ)
      → get_expression i k.expr_map ≡ o
      → elem d k.defs ≡ true
      → IsDefined k
      → Unchanged i (reuse i d k o)
  reuse-Unchanged i d k none q e h = (refl, refl, add-IsDefined i d k e h)
  reuse-Unchanged i d k (some r) q e h =
      rw (found-defined i k.defs k.expr_map r h q) (refl, refl, add-IsDefined i d k e h)

  defined-Unchanged :
      (i : Instruction) (o : Option ℕ) (k : Known) → IsDefined k → Unchanged i (visit_defined i o k)
  defined-Unchanged i none k h = (refl, refl, h)
  defined-Unchanged i (some d) k h =
      let k' = define_register d k in
      let h' = define-IsDefined d k h in
      elim (Bool-cases (cse_safe i.opcode)) [
        | inl c ↦
            rw c (reuse-Unchanged i d k' (get_expression i k'.expr_map) refl (ground arith) h')
        | inr c ↦ rw c (refl, refl, h')
      ]

  instructions-Unchanged :
      (is : List Instruction) (k : Known) → IsDefined k → Unchanged is (cse_instructions is k)
  unfolding cse_instructions cse_instruction
  instructions-Unchanged [] k h = (refl, refl, h)
  instructions-Unchanged (i ∷ is) k h =
      let r = visit_defined i (cse_def i) k in
      let (p, c, g) = defined-Unchanged i (cse_def i) k h in
      let (q, d, g') = instructions-Unchanged is r.known g in (rw (p, q) refl, rw (c, d) refl, g')

  blocks-Unchanged : (bs : List Block) (k : Known) → IsDefined k → Unchanged bs (cse_blocks bs k)
  unfolding cse_blocks
  blocks-Unchanged [] k h = (refl, refl, h)
  blocks-Unchanged (b ∷ bs) k h =
      let (p, c, g) = instructions-Unchanged b.instructions k h in
      let (q, d, g') = blocks-Unchanged bs (cse_instructions b.instructions k).known g in
      (rw (p, q) refl, rw (c, d) refl, g')

  -- For every equality of keys: the pass ends after one round and returns the function as it is. A
  -- register that the map of expressions holds was defined before, so that the test for reuse never
  -- holds.
  pub eliminate_cse_lem : (fuel : ℕ) (f : Function) → eliminate_cse (suc fuel) f ≡ some f
  unfolding eliminate_cse cse_loop
  eliminate_cse_lem fuel f =
      let (p, c, _) = blocks-Unchanged f.blocks (record { expr_map = []; defs = [] }) tt in
      rw (c, p) refl
