-- ===== src/Mir/Verify/Exits.antt =====
-- What the checks of a terminator ensure: with no problem, every register that the tables name is
-- below the register count, and every target is a block.
use qy.Prelude.{ℕ, zero, suc, ◌<◌, ◌≡◌, inl, inr, some, List, [], ◌∷◌, arith, filterb, not}
use qy.Prelude.Members.{In, elem→In, In-append_cases, Subset}
use qy.Mir.Node.{
  Operand, int, boolean, bit, tuple, object, TerminatorOpcode, branch, effect_perform, jump,
  raise_effect, return, tail_call, Terminator,
}
use qy.Mir.Operands
use qy.Mir.Operands.{
  int_at, tuple_ints_at, int_or_tuple_at, terminator_positions, terminator_def, when_least,
  when_any, targets, terminator_targets, tail_call_arguments, written, written_by, first,
  terminator_register_positions, collect, is_at,
}
use qy.Mir.Dce.Cover.{In-when_least, In-collect, In-filterb}
use qy.Mir.Verify.Schema.{
  at, check_register, check_block_target, check_target, verify_exit, verify_terminator,
  check_result, check_symbol_operand,
}
use qy.Mir.Verify.Registers.{
  append-nil, with_arity-nil, Below, check_register_lem, check_register_tuple_lem, first-In,
}

module _ (n : ℕ) where
  no_tuple_at :
      (i : ℕ) (ops : List Operand) (r : ℕ)
      → at i (check_register n) ops ≡ []
      → ¬ In r (tuple_ints_at i ops)
  no_tuple_at i [] r h l = l
  no_tuple_at zero (int _ ∷ ops) r h l = l
  no_tuple_at zero (boolean _ ∷ ops) r h l = l
  no_tuple_at zero (tuple _ ∷ ops) r h l = cc
  no_tuple_at zero (object _ ∷ ops) r h l = l
  no_tuple_at (suc i) (o ∷ ops) r h l = no_tuple_at i ops r h l

  abbrev BelowAt : ℕ → List Operand → Type 0
  BelowAt p ops = Below n (int_or_tuple_at p ops)

  plain_register : (i : ℕ) (ops : List Operand) → at i (check_register n) ops ≡ [] → BelowAt i ops
  plain_register i ops h r k = elim (In-append_cases r (int_at i ops) (tuple_ints_at i ops) k) [
    | inl l ↦ check_register_lem n i ops h r l
    | inr l ↦ absurd (no_tuple_at i ops r h l)
  ]

  result_register : (ops : List Operand) → at 0 (check_result n) ops ≡ [] → BelowAt 0 ops
  result_register [] h r k = absurd k
  result_register (int x ∷ ops) h r k = plain_register 0 (int x ∷ ops) h r k
  result_register (boolean x ∷ ops) h r k = plain_register 0 (boolean x ∷ ops) h r k
  result_register (tuple x ∷ ops) h r k = plain_register 0 (tuple x ∷ ops) h r k
  result_register (object _ ∷ ops) h r k = absurd k

  single :
      (m i : ℕ) (ops : List Operand) (p : ℕ)
      → at i (check_register n) ops ≡ []
      → In p (when_least m ops (i ∷ []))
      → BelowAt p ops
  single m i ops p h k = elim (In-when_least m ops (i ∷ []) p k) [
    | inl q ↦ rw q (plain_register i ops h)
    | inr e ↦ absurd e
  ]

  module _ (block_ids : List ℕ) where
    exit_register :
        (o : TerminatorOpcode) (ops : List Operand) (p : ℕ)
        → verify_exit n block_ids o ops ≡ []
        → In p (terminator_positions o ops)
        → BelowAt p ops
    exit_register jump ops p h k = absurd k
    exit_register branch ops p h k =
        single 1 0 ops p (append-nil _ _ (with_arity-nil 3 ops _ h)).0 k
    exit_register return ops p h k = elim (In-when_least 1 ops (0 ∷ []) p k) [
      | inl q ↦ rw q (result_register ops (with_arity-nil 1 ops _ h))
      | inr e ↦ absurd e
    ]
    exit_register raise_effect ops p h k =
        let h' = (append-nil (at 0 check_symbol_operand ops) _ (with_arity-nil 3 ops _ h)).1 in
        single 2 1 ops p (append-nil _ _ h').0 k
    exit_register effect_perform ops p h k =
        let (h0, h') = append-nil _ _ (with_arity-nil 5 ops _ h) in
        let h'' = (append-nil (at 1 check_symbol_operand ops) _ h').1 in
        elim (In-when_least 3 ops (0 ∷ 2 ∷ []) p k) [
          | inl q ↦ rw q (plain_register 0 ops h0)
          | inr (inl q) ↦ rw q (plain_register 2 ops (append-nil _ _ h'').0)
          | inr (inr e) ↦ absurd e
        ]
    exit_register tail_call ops p h k =
        single 1 0 ops p (append-nil _ _ (with_arity-nil 2 ops _ h)).0 k

    exit_arguments :
        (o : TerminatorOpcode) (ops : List Operand)
        → verify_exit n block_ids o ops ≡ []
        → Below n (tail_call_arguments o ops)
    exit_arguments tail_call ops h r k =
        check_register_tuple_lem n 1 ops
          (append-nil (at 0 (check_register n) ops) _ (with_arity-nil 2 ops _ h)).1 r k
    exit_arguments _ ops h r k = absurd k

    -- Every register that a terminator without a problem reads is below the count.
    pub terminator_uses-Below :
        (t : Terminator)
        → verify_terminator n block_ids t ≡ []
        → Below n (Operands.terminator_uses t)
    unfolding verify_terminator Operands.terminator_uses terminator_register_positions
    terminator_uses-Below t h r k =
        let ps = terminator_positions t.opcode t.operands in
        let keep = λ (p : ℕ). not (is_at (Operands.terminator_register_def_position t) p) in
        elim (In-append_cases r (collect int_or_tuple_at (filterb keep ps) t.operands)
          (tail_call_arguments t.opcode t.operands) k) [
            | inl l ↦
                let (p, m, b) = In-collect int_or_tuple_at (filterb keep ps) t.operands r l in
                exit_register t.opcode t.operands p h (In-filterb keep ps p m).0 r b
            | inr l ↦ exit_arguments t.opcode t.operands h r l
          ]

    exit_written :
        (o : TerminatorOpcode) (ops : List Operand) (r : ℕ)
        → verify_exit n block_ids o ops ≡ []
        → written_by o ops ≡ some r
        → r < n
    exit_written effect_perform ops r h e =
        check_register_lem n 0 ops (append-nil _ _ (with_arity-nil 5 ops _ h)).0 r
          (first-In (int_at 0 ops) r e)
    exit_written _ ops r h e = cc

    -- The register that a terminator without a problem writes is below the count.
    pub written-Below :
        (t : Terminator) (r : ℕ) → verify_terminator n block_ids t ≡ [] → written t ≡ some r → r < n
    unfolding verify_terminator written
    written-Below t r h e = exit_written t.opcode t.operands r h e

    known : (id : ℕ) → check_target n block_ids id ≡ [] → In id block_ids
    known id h = elem→In id block_ids (ground arith)

    target_known :
        (i : ℕ) (ops : List Operand) (id : ℕ)
        → at i (check_block_target n block_ids) ops ≡ []
        → In id (int_at i ops)
        → In id block_ids
    target_known i [] id h k = absurd k
    target_known zero (int x ∷ ops) id h (inl q) = rw q (known x h)
    target_known zero (int x ∷ ops) id h (inr k) = absurd k
    target_known zero (boolean x ∷ ops) id h (inl q) = rw q (known (bit x) h)
    target_known zero (boolean x ∷ ops) id h (inr k) = absurd k
    target_known zero (tuple _ ∷ ops) id h k = absurd k
    target_known zero (object _ ∷ ops) id h k = absurd k
    target_known (suc i) (_ ∷ ops) id h k = target_known i ops id h k

    exit_targets :
        (o : TerminatorOpcode) (ops : List Operand) (id : ℕ)
        → verify_exit n block_ids o ops ≡ []
        → In id (targets o ops)
        → In id block_ids
    exit_targets jump ops id h k = target_known 0 ops id (with_arity-nil 1 ops _ h) k
    exit_targets branch ops id h k =
        let h' = (append-nil (at 0 (check_register n) ops) _ (with_arity-nil 3 ops _ h)).1 in
        let (h1, h2) = append-nil _ _ h' in
        elim (In-append_cases id (int_at 1 ops) (int_at 2 ops) k) [
          | inl l ↦ target_known 1 ops id h1 l
          | inr l ↦ target_known 2 ops id h2 l
        ]
    exit_targets effect_perform ops id h k =
        let h1 = (append-nil (at 0 (check_register n) ops) _ (with_arity-nil 5 ops _ h)).1 in
        let h2 = (append-nil (at 1 check_symbol_operand ops) _ h1).1 in
        let h3 = (append-nil (at 2 (check_register n) ops) _ h2).1 in
        target_known 3 ops id (append-nil _ _ h3).0 k
    exit_targets _ ops id h k = absurd k

    -- Every target of a terminator without a problem is one of the ids.
    pub targets-known :
        (t : Terminator)
        → verify_terminator n block_ids t ≡ []
        → Subset (terminator_targets t) block_ids
    unfolding verify_terminator terminator_targets
    targets-known t h id k = exit_targets t.opcode t.operands id h k
