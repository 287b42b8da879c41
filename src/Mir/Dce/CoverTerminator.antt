-- ===== src/Mir/Dce/CoverTerminator.antt =====
-- As in Cover, for the terminators: the pass misses no register that a terminator reads.
use qy.Prelude.{ℕ, ◌≡◌, inl, inr, some, List, [], ◌∷◌, false, arith, not, filterb}
use qy.Prelude.Members.{In, In-append_right, In-append_cases, In-some}
use qy.Mir.Node.{
  Operand, int, boolean, tuple, object, TerminatorOpcode, branch, effect_perform, jump,
  raise_effect, return, tail_call, Terminator,
}
use qy.Mir.Operands
use qy.Mir.Operands.{
  int_at, int_or_tuple_at, tuple_ints_at, item_ints, is_at, when_any, when_least,
  terminator_positions, terminator_def, tail_call_arguments,
}
use qy.Mir.Dce.{
  add_reg, perform_uses, reg_at, tail_call_uses, terminator_opcode_uses, terminator_uses,
}
use qy.Mir.Dce.Cover.{In-collect, In-filterb, In-when_least, In-reg_at, not-true}

-- The one place where the tables look into a tuple that the pass does not: no verified terminator
-- has a tuple there.
abbrev pub PlainAt : ℕ → List Operand → Type 0
PlainAt p ops = (a : ℕ) → ¬ In a (tuple_ints_at p ops)

-- The single registers of a terminator are no tuples.
abbrev pub IsPlain : Terminator → Type 0
IsPlain t = (p : ℕ) → In p (Operands.terminator_register_positions t) → PlainAt p t.operands

pub plain_int :
    (p : ℕ) (ops : List Operand) (a : ℕ)
    → PlainAt p ops
    → In a (int_or_tuple_at p ops)
    → In a (int_at p ops)
plain_int p ops a plain h = elim (In-append_cases a (int_at p ops) (tuple_ints_at p ops) h) [
  | inl k ↦ k
  | inr k ↦ absurd (plain a k)
]

perform_argument : (ops : List Operand) (a : ℕ) → In a (int_at 2 ops) → In a (perform_uses ops)
perform_argument [] a h = absurd h
perform_argument (_ ∷ []) a h = absurd h
perform_argument (_ ∷ _ ∷ []) a h = absurd h
perform_argument (_ ∷ _ ∷ int n ∷ ops) a h = h
perform_argument (_ ∷ _ ∷ boolean n ∷ ops) a h = h
perform_argument (_ ∷ _ ∷ tuple _ ∷ ops) a h = absurd h
perform_argument (_ ∷ _ ∷ object _ ∷ ops) a h = absurd h

perform_read :
    (ops : List Operand) (p a : ℕ)
    → In p (0 ∷ 2 ∷ [])
    → is_at (when_any ops (some 0)) p ≡ false
    → In a (int_at p ops)
    → In a (perform_uses ops)
perform_read [] p a m e h = absurd h
perform_read (x ∷ ops) p a (inl z) e h = absurd (ground arith)
perform_read (x ∷ ops) p a (inr (inl z)) e h = perform_argument (x ∷ ops) a (rw z at h)
perform_read (x ∷ ops) p a (inr (inr z)) e h = absurd z

tail_operator :
    (ops : List Operand) (us : List ℕ) (a : ℕ)
    → tail_call_uses ops ≡ some us
    → In a (int_at 0 ops)
    → In a us
tail_operator [] us a r h = absurd h
tail_operator (x ∷ []) us a r h = cc
tail_operator (x ∷ y ∷ z ∷ ops) us a r h = cc
tail_operator (int n ∷ y ∷ []) us a r (inl k) = In-some a _ _ r (inl k)
tail_operator (boolean n ∷ y ∷ []) us a r (inl k) = In-some a _ _ r (inl k)
tail_operator (int n ∷ y ∷ []) us a r (inr k) = absurd k
tail_operator (boolean n ∷ y ∷ []) us a r (inr k) = absurd k
tail_operator (tuple _ ∷ y ∷ []) us a r h = absurd h
tail_operator (object _ ∷ y ∷ []) us a r h = absurd h

tail_argument :
    (ops : List Operand) (us : List ℕ) (a : ℕ)
    → tail_call_uses ops ≡ some us
    → In a (tuple_ints_at 1 ops)
    → In a us
tail_argument [] us a r h = absurd h
tail_argument (x ∷ []) us a r h = absurd h
tail_argument (x ∷ y ∷ z ∷ ops) us a r h = cc
tail_argument (x ∷ tuple items ∷ []) us a r h =
    In-some a _ _ r (In-append_right a (add_reg x) (item_ints items) h)
tail_argument (x ∷ int _ ∷ []) us a r h = absurd h
tail_argument (x ∷ boolean _ ∷ []) us a r h = absurd h
tail_argument (x ∷ object _ ∷ []) us a r h = absurd h

at_first :
    (ops : List Operand) (us : List ℕ) (p a : ℕ)
    → reg_at 0 ops ≡ some us
    → In p (when_least 1 ops (0 ∷ []))
    → In a (int_at p ops)
    → In a us
at_first ops us p a r m h = elim (In-when_least 1 ops (0 ∷ []) p m) [
  | inl z ↦ In-reg_at ops 0 a us r (rw z at h)
  | inr k ↦ absurd k
]

cover_register :
    (o : TerminatorOpcode) (ops : List Operand) (us : List ℕ) (p a : ℕ)
    → terminator_opcode_uses o ops ≡ some us
    → In p (terminator_positions o ops)
    → is_at (when_any ops (terminator_def o)) p ≡ false
    → In a (int_at p ops)
    → In a us
cover_register return ops us p a r m e h = at_first ops us p a r m h
cover_register branch ops us p a r m e h = at_first ops us p a r m h
cover_register raise_effect ops us p a r m e h = elim (In-when_least 2 ops (1 ∷ []) p m) [
  | inl z ↦ In-reg_at ops 1 a us r (rw z at h)
  | inr k ↦ absurd k
]
cover_register effect_perform ops us p a r m e h =
    In-some a _ _ r (perform_read ops p a (In-when_least 3 ops (0 ∷ 2 ∷ []) p m) e h)
cover_register tail_call ops us p a r m e h = elim (In-when_least 1 ops (0 ∷ []) p m) [
  | inl z ↦ tail_operator ops us a r (rw z at h)
  | inr k ↦ absurd k
]
cover_register jump ops us p a r m e h = absurd m

cover_arguments :
    (o : TerminatorOpcode) (ops : List Operand) (us : List ℕ) (a : ℕ)
    → terminator_opcode_uses o ops ≡ some us
    → In a (tail_call_arguments o ops)
    → In a us
cover_arguments tail_call ops us a r h = tail_argument ops us a r h
cover_arguments _ ops us a r h = absurd h

-- Where the pass reads a terminator without an exception, and no single register of it is a
-- tuple, each register that the terminator reads by the tables of the MIR is among those that
-- the pass collects from it.
pub terminator_uses-Subset :
    (t : Terminator) (us : List ℕ)
    → IsPlain t
    → terminator_uses t ≡ some us
    → (a : ℕ) → In a (Operands.terminator_uses t)
    → In a us
unfolding terminator_uses Operands.terminator_uses
terminator_uses-Subset t us plain r a h =
    let ps = terminator_positions t.opcode t.operands in
    let keep = λ (p : ℕ). not (is_at (when_any t.operands (terminator_def t.opcode)) p) in
    elim (In-append_cases a (Operands.collect int_or_tuple_at (filterb keep ps) t.operands)
      (tail_call_arguments t.opcode t.operands) h) [
        | inl k ↦
            let (p, m, i) = In-collect int_or_tuple_at (filterb keep ps) t.operands a k in
            let (m', q) = In-filterb keep ps p m in
            cover_register t.opcode t.operands us p a r m' (not-true _ q)
              (plain_int p t.operands a (plain p m') i)
        | inr k ↦ cover_arguments t.opcode t.operands us a r k
      ]
