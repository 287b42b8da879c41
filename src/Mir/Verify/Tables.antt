-- ===== src/Mir/Verify/Tables.antt =====
-- The registers of _collect_register_uses, _check_terminator_uses and _DEFINE_OPCODES against those
-- of the register tables in the same file.
use Prim.Native.Nat.{min}
use qy.Prelude.{
  ℕ, zero, suc, ◌<◌, ◌≡◌, refl, inl, inr, Bool, true, false, not, leb, some, List, [], ◌∷◌, ◌++◌,
  length, filterb, arith,
}
use qy.Prelude.Members.{In, In-append_left, In-append_right, In-append_cases}
use qy.Mir.Node.{
  Operand, int, boolean, tuple, object, Opcode, append_result, all_gather, apply, build_tuple,
  cache_eval, call, define_module, define_once, effect_handle_end, effect_resume, load_const,
  load_host, load_env, make_function, make_macro, move, parallel_gather, race_first, runtime_eval,
  store_local, TerminatorOpcode, branch, effect_perform, jump, raise_effect, return, tail_call,
  Instruction, Terminator,
}
use qy.Mir.Operands
use qy.Mir.Operands.{
  collect, register_positions, def_position, tuple_positions, int_at, int_or_tuple_at, range,
  range_from, tuple_ints_at, when_any, when_least, is_at, first, def, uses, terminator_uses,
  terminator_positions, terminator_def, tail_call_arguments, written,
}
use qy.Mir.Dce.Cover.{
  In-collect, In-filterb, In-range_from, In-when_least, not-true, positive, read_at, only_def,
  below_two, handle_end_reads_none,
}
use qy.Mir.Semantics.Reads.{collect-In, range_from-In}
use qy.Mir.Dce.CoverTerminator.{IsPlain, plain_int}
use qy.Mir.Verify.DefUse.{opcode_uses, exit_uses, defined_at, defined_by, perform_defined}

In-first :
    (p : ℕ) (ops : List Operand) (a : ℕ) → In a (int_at p ops) → first (int_at p ops) ≡ some a
In-first p [] a h = absurd h
In-first zero (int n ∷ ops) a (inl e) = rw e refl
In-first zero (int n ∷ ops) a (inr h) = absurd h
In-first zero (boolean n ∷ ops) a (inl e) = rw e refl
In-first zero (boolean n ∷ ops) a (inr h) = absurd h
In-first zero (tuple _ ∷ ops) a h = absurd h
In-first zero (object _ ∷ ops) a h = absurd h
In-first (suc p) (o ∷ ops) a h = In-first p ops a h

two_or_more : (n : ℕ) → leb 2 (suc (suc n)) ≡ true
two_or_more n = ground arith

first_defined :
    (o : Opcode) (ops : List Operand) (c : Bool) (a : ℕ)
    → In a (defined_at o ops)
    → def (record { opcode = o; operands = ops; continuous = c }) ≡ some a
unfolding def
first_defined effect_handle_end [] c a h = absurd h
first_defined effect_handle_end (_ ∷ []) c a h = absurd h
first_defined effect_handle_end (x ∷ y ∷ ops) c a h =
    rw (two_or_more (length ops)) (In-first 1 (x ∷ y ∷ ops) a h)
first_defined load_host (x ∷ ops) c a h = In-first 0 (x ∷ ops) a h
first_defined load_const (x ∷ ops) c a h = In-first 0 (x ∷ ops) a h
first_defined load_env (x ∷ ops) c a h = In-first 0 (x ∷ ops) a h
first_defined move (x ∷ ops) c a h = In-first 0 (x ∷ ops) a h
first_defined call (x ∷ ops) c a h = In-first 0 (x ∷ ops) a h
first_defined make_function (x ∷ ops) c a h = In-first 0 (x ∷ ops) a h
first_defined make_macro (x ∷ ops) c a h = In-first 0 (x ∷ ops) a h
first_defined build_tuple (x ∷ ops) c a h = In-first 0 (x ∷ ops) a h
first_defined apply (x ∷ ops) c a h = In-first 0 (x ∷ ops) a h
first_defined runtime_eval (x ∷ ops) c a h = In-first 0 (x ∷ ops) a h
first_defined cache_eval (x ∷ ops) c a h = In-first 0 (x ∷ ops) a h
first_defined define_module (x ∷ ops) c a h = In-first 0 (x ∷ ops) a h
first_defined effect_resume (x ∷ ops) c a h = In-first 0 (x ∷ ops) a h
first_defined all_gather (x ∷ ops) c a h = In-first 0 (x ∷ ops) a h
first_defined parallel_gather (x ∷ ops) c a h = In-first 0 (x ∷ ops) a h
first_defined race_first (x ∷ ops) c a h = In-first 0 (x ∷ ops) a h
first_defined _ [] c a h = absurd h
first_defined _ (x ∷ ops) c a h = absurd h

-- What the check counts as defined, the instruction writes.
pub defined_by-def : (i : Instruction) (a : ℕ) → In a (defined_by i) → def i ≡ some a
unfolding defined_by
defined_by-def i a h = first_defined i.opcode i.operands i.continuous a h

perform_written :
    (o : TerminatorOpcode) (ops : List Operand) (a : ℕ)
    → In a (perform_defined o ops)
    → written (record { opcode = o; operands = ops }) ≡ some a
unfolding written
perform_written effect_perform ops a h = In-first 0 ops a h
perform_written _ ops a h = absurd h

pub perform_defined-written :
    (t : Terminator) (a : ℕ) → In a (perform_defined t.opcode t.operands) → written t ≡ some a
perform_defined-written t a h = perform_written t.opcode t.operands a h

second :
    (ops : List Operand) (p a : ℕ)
    → p < 2
    → is_at (when_any ops (some 0)) p ≡ false
    → In a (int_at p ops)
    → In a (int_at 1 ops)
second ops zero a m e h = let (q, z) = positive ops zero a e h in cc
second ops (suc zero) a m e h = h
second ops (suc (suc p)) a m e h = absurd (omega arith)

second_or_third :
    (ops : List Operand) (p a : ℕ)
    → p < 3
    → is_at (when_any ops (some 0)) p ≡ false
    → In a (int_at p ops)
    → In a (int_at 1 ops ++ int_at 2 ops)
second_or_third ops zero a m e h = let (q, z) = positive ops zero a e h in cc
second_or_third ops (suc zero) a m e h = In-append_left a (int_at 1 ops) (int_at 2 ops) h
second_or_third ops (suc (suc zero)) a m e h = In-append_right a (int_at 1 ops) (int_at 2 ops) h
second_or_third ops (suc (suc (suc p))) a m e h = absurd (omega arith)

below_three : (ops : List Operand) (n p : ℕ) → In p (range (min 3 n)) → p < 3
below_three ops n p m = omega (arith, In-range_from 0 (min 3 n) p m)

register_used :
    (o : Opcode) (ops : List Operand) (p a : ℕ)
    → In p (register_positions o ops)
    → is_at (when_any ops (def_position o ops)) p ≡ false
    → In a (int_at p ops)
    → In a (opcode_uses o ops)
register_used load_const ops p a m e h = only_def ops p a m e h
register_used load_host ops p a m e h = only_def ops p a m e h
register_used load_env ops p a m e h = only_def ops p a m e h
register_used make_function ops p a m e h = only_def ops p a m e h
register_used make_macro ops p a m e h = only_def ops p a m e h
register_used cache_eval ops p a m e h = only_def ops p a m e h
register_used define_module ops p a m e h = only_def ops p a m e h
register_used all_gather ops p a m e h = only_def ops p a m e h
register_used parallel_gather ops p a m e h = only_def ops p a m e h
register_used race_first ops p a m e h = only_def ops p a m e h
register_used move ops p a m e h =
    second ops p a
      (below_two ops (length ops) p (In-when_least 2 ops (range (min 2 (length ops))) p m)) e h
register_used runtime_eval ops p a m e h =
    second ops p a
      (below_two ops (length ops) p (In-when_least 2 ops (range (min 2 (length ops))) p m)) e h
register_used call ops p a m e h = In-append_left a (int_at 1 ops) (tuple_ints_at 2 ops) (
    second ops p a
      (below_two ops (length ops) p (In-when_least 2 ops (range (min 2 (length ops))) p m)) e h)
register_used apply ops p a m e h = second_or_third ops p a (below_three ops (length ops) p m) e h
register_used effect_resume ops p a m e h =
    second_or_third ops p a (below_three ops (length ops) p m) e h
register_used build_tuple ops p a m e h =
    let (q, z) = positive ops p a e h in
    collect-In int_at (range_from 1 (length ops)) ops p a
      (range_from-In 1 (length ops) p (omega arith)
        (omega (arith, In-range_from 0 (length ops) p m)))
      h
register_used store_local ops p a m e h = elim (In-when_least 2 ops (1 ∷ []) p m) [
  | inl z ↦ rw z at h
  | inr k ↦ absurd k
]
register_used define_once ops p a m e h = elim (In-when_least 2 ops (1 ∷ []) p m) [
  | inl z ↦ rw z at h
  | inr k ↦ absurd k
]
register_used append_result ops p a m e h = elim (In-when_least 1 ops (0 ∷ []) p m) [
  | inl z ↦ rw z at h
  | inr k ↦ absurd k
]
register_used effect_handle_end ops p a m e h = handle_end_reads_none ops p a m e h
register_used _ ops p a m e h = absurd m

tuple_used :
    (o : Opcode) (ops : List Operand) (p a : ℕ)
    → In p (tuple_positions o ops)
    → In a (tuple_ints_at p ops)
    → In a (opcode_uses o ops)
tuple_used call ops p a m h = elim (In-when_least 3 ops (2 ∷ []) p m) [
  | inl z ↦ In-append_right a (int_at 1 ops) (tuple_ints_at 2 ops) (rw z at h)
  | inr k ↦ absurd k
]
tuple_used _ ops p a m h = absurd m

-- What the instruction reads, the check counts as used.
pub uses-opcode_uses :
    (i : Instruction) (a : ℕ) → In a (uses i) → In a (opcode_uses i.opcode i.operands)
unfolding Operands.register_operand_positions Operands.register_def_position
    Operands.register_tuple_positions
uses-opcode_uses i a h = elim (read_at i a h) [
  | inl (p, m, e, k) ↦ register_used i.opcode i.operands p a m e k
  | inr (p, m, k) ↦ tuple_used i.opcode i.operands p a m k
]

exit_used :
    (o : TerminatorOpcode) (ops : List Operand) (p a : ℕ)
    → In p (terminator_positions o ops)
    → is_at (when_any ops (terminator_def o)) p ≡ false
    → In a (int_at p ops)
    → In a (exit_uses o ops)
exit_used return ops p a m e h = elim (In-when_least 1 ops (0 ∷ []) p m) [
  | inl z ↦ rw z at h
  | inr k ↦ absurd k
]
exit_used branch ops p a m e h = elim (In-when_least 1 ops (0 ∷ []) p m) [
  | inl z ↦ rw z at h
  | inr k ↦ absurd k
]
exit_used raise_effect ops p a m e h = elim (In-when_least 2 ops (1 ∷ []) p m) [
  | inl z ↦ rw z at h
  | inr k ↦ absurd k
]
exit_used tail_call ops p a m e h = elim (In-when_least 1 ops (0 ∷ []) p m) [
  | inl z ↦ In-append_left a (int_at 0 ops) (tuple_ints_at 1 ops) (rw z at h)
  | inr k ↦ absurd k
]
exit_used effect_perform ops p a m e h = elim (In-when_least 3 ops (0 ∷ 2 ∷ []) p m) [
  | inl z ↦ let (q, y) = positive ops p a e h in absurd (omega (arith, z, y))
  | inr (inl z) ↦ rw z at h
  | inr (inr k) ↦ absurd k
]
exit_used jump ops p a m e h = absurd m

arguments_used :
    (o : TerminatorOpcode) (ops : List Operand) (a : ℕ)
    → In a (tail_call_arguments o ops)
    → In a (exit_uses o ops)
arguments_used tail_call ops a h = In-append_right a (int_at 0 ops) (tuple_ints_at 1 ops) h
arguments_used _ ops a h = absurd h

-- What a terminator reads whose single registers are no tuples, the check counts as used.
pub terminator_uses-exit_uses :
    (t : Terminator) (a : ℕ)
    → IsPlain t
    → In a (terminator_uses t)
    → In a (exit_uses t.opcode t.operands)
unfolding terminator_uses
terminator_uses-exit_uses t a plain h =
    let ps = terminator_positions t.opcode t.operands in
    let keep = λ (p : ℕ). not (is_at (when_any t.operands (terminator_def t.opcode)) p) in
    elim (In-append_cases a (collect int_or_tuple_at (filterb keep ps) t.operands)
      (tail_call_arguments t.opcode t.operands) h) [
        | inl k ↦
            let (p, m, i) = In-collect int_or_tuple_at (filterb keep ps) t.operands a k in
            let (m', q) = In-filterb keep ps p m in
            exit_used t.opcode t.operands p a m' (not-true _ q)
              (plain_int p t.operands a (plain p m') i)
        | inr k ↦ arguments_used t.opcode t.operands a k
      ]
