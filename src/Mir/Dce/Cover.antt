-- ===== src/Mir/Dce/Cover.antt =====
-- The pass collects registers by its own table (qy/passes/optimize/dce.py). It misses none that
-- the tables of qy/ir/mir/__init__.py name.
use Prim.Native.Nat.{min}
use qy.Prelude.{
  ℕ, zero, suc, ◌+◌, ◌<◌, ◌≡◌, refl, inl, inr, ◌⊎◌, Bool, true, false, not, some, List, [], ◌∷◌,
  arith, length, filterb,
}
use qy.Prelude.Members.{In, In-append_right, In-append_cases, In-some}
use qy.Mir.Node.{
  Operand, int, boolean, tuple, object, Opcode, append_result, all_gather, apply, build_tuple,
  cache_eval, call, define_module, define_once, effect_handle_end, effect_resume, load_const,
  load_host, load_env, make_function, make_macro, move, parallel_gather, race_first, runtime_eval,
  store_local, Instruction,
}
use qy.Mir.Operands
use qy.Mir.Operands.{
  collect, register_positions, def_position, tuple_positions, int_at, int_or_tuple_at, range,
  range_from, tuple_ints_at, when_any, when_least, is_at, item_ints,
}
use qy.Mir.Dce.{add_reg, add_regs, reg_at, rest, call_uses, opcode_uses, instruction_uses}

-- Where a collected register comes from.
pub In-collect :
    (at : ℕ → List Operand → List ℕ) (ps : List ℕ) (ops : List Operand) (a : ℕ)
    → In a (collect at ps ops)
    → (p : ℕ) × In p ps × In a (at p ops)
In-collect at [] ops a h = absurd h
In-collect at (p ∷ ps) ops a h = elim (In-append_cases a (at p ops) (collect at ps ops) h) [
  | inl k ↦ (p, inl refl, k)
  | inr k ↦ let (q, m, i) = In-collect at ps ops a k in (q, inr m, i)
]

pub In-filterb : (q : ℕ → Bool) (ps : List ℕ) (a : ℕ) → In a (filterb q ps) → In a ps × (q a ≡ true)
In-filterb q [] a h = absurd h
In-filterb q (p ∷ ps) a h = ground (arith, In-filterb q ps a)

pub In-range_from : (start n a : ℕ) → In a (range_from start n) → a < start + n
In-range_from start zero a h = absurd h
In-range_from start (suc n) a (inl e) = omega arith
In-range_from start (suc n) a (inr h) = omega (arith, In-range_from (suc start) n a h)

pub In-when_least :
    (n : ℕ) (ops : List Operand) (ps : List ℕ) (p : ℕ) → In p (when_least n ops ps) → In p ps
In-when_least n ops ps p h = ground arith

-- An operand that is read and is not the one at position 0.
pub positive :
    (ops : List Operand) (p a : ℕ)
    → is_at (when_any ops (some 0)) p ≡ false
    → In a (int_at p ops)
    → (q : ℕ) × (p ≡ suc q)
positive [] p a e h = absurd h
positive (o ∷ ops) zero a e h = cc
positive (o ∷ ops) (suc q) a e h = (q, refl)

In-add_regs : (ops : List Operand) (p a : ℕ) → In a (int_at p ops) → In a (add_regs ops)
In-add_regs [] p a h = absurd h
In-add_regs (int n ∷ ops) zero a (inl e) = inl e
In-add_regs (boolean n ∷ ops) zero a (inl e) = inl e
In-add_regs (int n ∷ ops) zero a (inr h) = absurd h
In-add_regs (boolean n ∷ ops) zero a (inr h) = absurd h
In-add_regs (tuple _ ∷ ops) zero a h = absurd h
In-add_regs (object _ ∷ ops) zero a h = absurd h
In-add_regs (o ∷ ops) (suc p) a h = In-append_right a (add_reg o) _ (In-add_regs ops p a h)

In-rest :
    (ops : List Operand) (p a : ℕ)
    → is_at (when_any ops (some 0)) p ≡ false
    → In a (int_at p ops)
    → In a (add_regs (rest ops))
In-rest [] p a e h = absurd h
In-rest (o ∷ ops) zero a e h = cc
In-rest (o ∷ ops) (suc p) a e h = In-add_regs ops p a h

pub In-reg_at :
    (ops : List Operand) (p a : ℕ) (us : List ℕ)
    → reg_at p ops ≡ some us
    → In a (int_at p ops)
    → In a us
In-reg_at [] p a us e h = absurd h
In-reg_at (int n ∷ ops) zero a us e h = In-some a _ _ e h
In-reg_at (boolean n ∷ ops) zero a us e h = In-some a _ _ e h
In-reg_at (tuple _ ∷ ops) zero a us e h = absurd h
In-reg_at (object _ ∷ ops) zero a us e h = absurd h
In-reg_at (o ∷ ops) (suc p) a us e h = In-reg_at ops p a us e h

pub not-true : (b : Bool) → not b ≡ true → b ≡ false
not-true true h = cc
not-true false h = refl

-- What the tables say of a register that an instruction reads.
pub read_at :
    (i : Instruction) (a : ℕ)
    → In a (Operands.uses i)
    → ((p : ℕ) × In p (Operands.register_operand_positions i)
        × (is_at (Operands.register_def_position i) p ≡ false)
        × In a (int_at p i.operands))
      ⊎ ((p : ℕ) × In p (Operands.register_tuple_positions i) × In a (tuple_ints_at p i.operands))
unfolding Operands.uses
read_at i a h =
    let d = Operands.register_def_position i in
    let ps = Operands.register_operand_positions i in
    let ts = Operands.register_tuple_positions i in
    let keep = λ (p : ℕ). not (is_at d p) in
    elim (In-append_cases a (collect int_at (filterb keep ps) i.operands)
      (collect tuple_ints_at (filterb keep ts) i.operands) h) [
        | inl k ↦
            let (p, m, r) = In-collect int_at (filterb keep ps) i.operands a k in
            let (m', q) = In-filterb keep ps p m in inl (p, m', not-true _ q, r)
        | inr k ↦
            let (p, m, r) = In-collect tuple_ints_at (filterb keep ts) i.operands a k in
            inr (p, (In-filterb keep ts p m).0, r)
      ]

-- An opcode whose one register is the one it writes reads none.
pub only_def :
    (ops : List Operand) (p a : ℕ) {b : Type 0}
    → In p (when_least 1 ops (0 ∷ []))
    → is_at (when_any ops (some 0)) p ≡ false
    → In a (int_at p ops)
    → b
only_def ops p a m e h =
    let (q, r) = positive ops p a e h in
    elim (In-when_least 1 ops (0 ∷ []) p m) [ inl z ↦ absurd (omega arith) | inr k ↦ absurd k ]

-- An opcode that reads the register at position 1 and writes the one at position 0.
at_one :
    (ops : List Operand) (us : List ℕ) (p a : ℕ)
    → reg_at 1 ops ≡ some us
    → p < 2
    → is_at (when_any ops (some 0)) p ≡ false
    → In a (int_at p ops)
    → In a us
at_one ops us zero a r m e h = let (q, z) = positive ops zero a e h in cc
at_one ops us (suc zero) a r m e h = In-reg_at ops 1 a us r h
at_one ops us (suc (suc p)) a r m e h = absurd (omega arith)

call_operator :
    (ops : List Operand) (us : List ℕ) (p a : ℕ)
    → call_uses ops ≡ some us
    → p < 2
    → is_at (when_any ops (some 0)) p ≡ false
    → In a (int_at p ops)
    → In a us
call_operator [] us p a r m e h = absurd h
call_operator (x ∷ []) us p a r m e h = cc
call_operator (x ∷ y ∷ []) us p a r m e h = cc
call_operator (x ∷ y ∷ z ∷ w ∷ ops) us p a r m e h = cc
call_operator (x ∷ y ∷ z ∷ []) us zero a r m e h = cc
call_operator (x ∷ int n ∷ z ∷ []) us (suc zero) a r m e (inl k) = In-some a _ _ r (inl k)
call_operator (x ∷ boolean n ∷ z ∷ []) us (suc zero) a r m e (inl k) = In-some a _ _ r (inl k)
call_operator (x ∷ int n ∷ z ∷ []) us (suc zero) a r m e (inr k) = absurd k
call_operator (x ∷ boolean n ∷ z ∷ []) us (suc zero) a r m e (inr k) = absurd k
call_operator (x ∷ tuple _ ∷ z ∷ []) us (suc zero) a r m e h = absurd h
call_operator (x ∷ object _ ∷ z ∷ []) us (suc zero) a r m e h = absurd h
call_operator (x ∷ y ∷ z ∷ []) us (suc (suc p)) a r m e h = absurd (omega arith)

call_argument :
    (ops : List Operand) (us : List ℕ) (a : ℕ)
    → call_uses ops ≡ some us
    → In a (tuple_ints_at 2 ops)
    → In a us
call_argument [] us a r h = absurd h
call_argument (x ∷ []) us a r h = absurd h
call_argument (x ∷ y ∷ []) us a r h = absurd h
call_argument (x ∷ y ∷ z ∷ w ∷ ops) us a r h = cc
call_argument (x ∷ y ∷ tuple items ∷ []) us a r h =
    In-some a _ _ r (In-append_right a (add_reg y) (item_ints items) h)
call_argument (x ∷ y ∷ int _ ∷ []) us a r h = absurd h
call_argument (x ∷ y ∷ boolean _ ∷ []) us a r h = absurd h
call_argument (x ∷ y ∷ object _ ∷ []) us a r h = absurd h

pub below_two : (ops : List Operand) (n p : ℕ) → In p (range (min 2 n)) → p < 2
below_two ops n p m = omega (arith, In-range_from 0 (min 2 n) p m)

pub handle_end_reads_none :
    (ops : List Operand) (p a : ℕ) {b : Type 0}
    → In p (when_least 2 ops (1 ∷ []))
    → is_at (when_any ops (def_position effect_handle_end ops)) p ≡ false
    → In a (int_at p ops)
    → b
handle_end_reads_none [] p a m e h = absurd h
handle_end_reads_none (x ∷ []) p a m e h = absurd m
handle_end_reads_none (x ∷ y ∷ ops) p a m e h = elim (In-when_least 2 (x ∷ y ∷ ops) (1 ∷ []) p m) [
  | inl z ↦ absurd (ground arith)
  | inr k ↦ absurd k
]

cover_register :
    (o : Opcode) (ops : List Operand) (us : List ℕ) (p a : ℕ)
    → opcode_uses o ops ≡ some us
    → In p (register_positions o ops)
    → is_at (when_any ops (def_position o ops)) p ≡ false
    → In a (int_at p ops)
    → In a us
cover_register load_const ops us p a r m e h = only_def ops p a m e h
cover_register load_host ops us p a r m e h = only_def ops p a m e h
cover_register load_env ops us p a r m e h = only_def ops p a m e h
cover_register make_function ops us p a r m e h = only_def ops p a m e h
cover_register make_macro ops us p a r m e h = only_def ops p a m e h
cover_register cache_eval ops us p a r m e h = only_def ops p a m e h
cover_register define_module ops us p a r m e h = only_def ops p a m e h
cover_register all_gather ops us p a r m e h = only_def ops p a m e h
cover_register parallel_gather ops us p a r m e h = only_def ops p a m e h
cover_register race_first ops us p a r m e h = only_def ops p a m e h
cover_register move ops us p a r m e h =
    at_one ops us p a r
      (below_two ops (length ops) p (In-when_least 2 ops (range (min 2 (length ops))) p m)) e h
cover_register call ops us p a r m e h =
    call_operator ops us p a r
      (below_two ops (length ops) p (In-when_least 2 ops (range (min 2 (length ops))) p m)) e h
cover_register runtime_eval ops us p a r m e h = In-some a _ _ r (In-rest ops p a e h)
cover_register apply ops us p a r m e h = In-some a _ _ r (In-rest ops p a e h)
cover_register build_tuple ops us p a r m e h = In-some a _ _ r (In-rest ops p a e h)
cover_register effect_resume ops us p a r m e h = In-some a _ _ r (In-rest ops p a e h)
cover_register store_local ops us p a r m e h = elim (In-when_least 2 ops (1 ∷ []) p m) [
  | inl z ↦ In-reg_at ops 1 a us r (rw z at h)
  | inr k ↦ absurd k
]
cover_register define_once ops us p a r m e h = elim (In-when_least 2 ops (1 ∷ []) p m) [
  | inl z ↦ In-reg_at ops 1 a us r (rw z at h)
  | inr k ↦ absurd k
]
cover_register append_result ops us p a r m e h = elim (In-when_least 1 ops (0 ∷ []) p m) [
  | inl z ↦ In-reg_at ops 0 a us r (rw z at h)
  | inr k ↦ absurd k
]
cover_register effect_handle_end ops us p a r m e h = handle_end_reads_none ops p a m e h
cover_register _ ops us p a r m e h = absurd m

cover_tuple :
    (o : Opcode) (ops : List Operand) (us : List ℕ) (p a : ℕ)
    → opcode_uses o ops ≡ some us
    → In p (tuple_positions o ops)
    → In a (tuple_ints_at p ops)
    → In a us
cover_tuple call ops us p a r m h = elim (In-when_least 3 ops (2 ∷ []) p m) [
  | inl z ↦ call_argument ops us a r (rw z at h)
  | inr k ↦ absurd k
]
cover_tuple _ ops us p a r m h = absurd m

-- Where the pass reads an instruction without an exception, each register that the instruction
-- reads by the tables of the MIR is among those that the pass collects from it.
pub instruction_uses-Subset :
    (i : Instruction) (us : List ℕ)
    → instruction_uses i ≡ some us
    → (a : ℕ) → In a (Operands.uses i)
    → In a us
unfolding instruction_uses Operands.register_operand_positions Operands.register_def_position
    Operands.register_tuple_positions
instruction_uses-Subset i us r a h = elim (read_at i a h) [
  | inl (p, m, e, k) ↦ cover_register i.opcode i.operands us p a r m e k
  | inr (p, m, k) ↦ cover_tuple i.opcode i.operands us p a r m k
]
