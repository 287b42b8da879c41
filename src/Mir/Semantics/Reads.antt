-- ===== src/Mir/Semantics/Reads.antt =====
-- The opcodes that load a register read no register but those that the register tables of
-- qy/ir/mir/__init__.py name.
use qy.Prelude.{
  ℕ, zero, suc, ◌+◌, ◌≤◌, ◌<◌, ◌≡◌, refl, ap, inl, inr, Bool, true, not, Option, some, List, [],
  ◌∷◌, ◌++◌, length, filterb, ◌>>=◌, arith,
}
use qy.Prelude.Members.{In, In-append_left, In-append_right}
use qy.Mir.Node.{
  Operand, int, boolean, tuple, object, Opcode, load_host, load_const, load_env, move,
  make_function, make_macro, build_tuple, Instruction,
}
use qy.Mir.Operands.{collect, int_at, range_from, is_at, uses}
use qy.Mir.Semantics.{Agree, Machine, read, read_all, to_register, load, loaded, exec_as, exec}

pub collect-In :
    (at : ℕ → List Operand → List ℕ) (ps : List ℕ) (ops : List Operand) (p a : ℕ)
    → In p ps
    → In a (at p ops)
    → In a (collect at ps ops)
collect-In at [] ops p a m h = absurd m
collect-In at (q ∷ ps) ops p a (inl e) h =
    In-append_left a (at q ops) (collect at ps ops) (rw e at h)
collect-In at (q ∷ ps) ops p a (inr m) h =
    In-append_right a (at q ops) (collect at ps ops) (collect-In at ps ops p a m h)

pub range_from-In : (start n p : ℕ) → start ≤ p → p < start + n → In p (range_from start n)
range_from-In start zero p h k = absurd (omega arith)
range_from-In start (suc n) p h k = ground (arith, range_from-In (suc start) n p)

filterb-In : (q : ℕ → Bool) (ps : List ℕ) (a : ℕ) → q a ≡ true → In a ps → In a (filterb q ps)
filterb-In q [] a e h = absurd h
filterb-In q (p ∷ ps) a e h = ground (arith, filterb-In q ps a)

int_at-lt : (ops : List Operand) (p a : ℕ) → In a (int_at p ops) → p < length ops
int_at-lt [] p a h = absurd h
int_at-lt (o ∷ ops) zero a h = omega arith
int_at-lt (o ∷ ops) (suc p) a h = omega (arith, int_at-lt ops p a h)

move_reads :
    (dest source : Operand) (c : Bool) (a : ℕ)
    → In a (int_at 1 (dest ∷ source ∷ []))
    → In a (uses (record { opcode = move; operands = dest ∷ source ∷ []; continuous = c }))
unfolding uses
move_reads dest source c a h =
    let xs = int_at 1 (dest ∷ source ∷ []) in
    In-append_left a (xs ++ []) [] (In-append_left a xs [] h)

build_tuple_reads :
    (dest : Operand) (ops : List Operand) (c : Bool) (p a : ℕ)
    → In a (int_at p ops)
    → In a (uses (record { opcode = build_tuple; operands = dest ∷ ops; continuous = c }))
unfolding uses
build_tuple_reads dest ops c p a h =
    let keep = λ (x : ℕ). not (is_at (some 0) x) in
    let ps = range_from 1 (length ops) in
    let m =
      range_from-In 1 (length ops) (suc p) (omega arith) (omega (arith, int_at-lt ops p a h)) in
    In-append_left a (collect int_at (filterb keep ps) (dest ∷ ops)) [] (
      collect-In int_at (filterb keep ps) (dest ∷ ops) (suc p) a
        (filterb-In keep ps (suc p) (ground arith) m) h)

read-agrees :
    {A : Type 0} (o : Operand) (ρ ρ' : ℕ → A)
    → ((a : ℕ) → In a (int_at 0 (o ∷ [])) → ρ a ≡ ρ' a)
    → read o ρ ≡ read o ρ'
read-agrees {A} (int n) ρ ρ' h = ap (λ (v : A). some v) (h n (inl refl))
read-agrees {A} (boolean b) ρ ρ' h = ap (λ (v : A). some v) (h _ (inl refl))
read-agrees (tuple _) ρ ρ' h = refl
read-agrees (object _) ρ ρ' h = refl

read_all-agrees :
    {A : Type 0} (ops : List Operand) (ρ ρ' : ℕ → A)
    → ((p a : ℕ) → In a (int_at p ops) → ρ a ≡ ρ' a)
    → read_all ops ρ ≡ read_all ops ρ'
read_all-agrees [] ρ ρ' h = refl
read_all-agrees (o ∷ ops) ρ ρ' h =
    rw (read-agrees o ρ ρ' (λ a k. h zero a k), read_all-agrees ops ρ ρ' (λ p a k. h (suc p) a k))
      refl

module _ (m : Machine) where
  open m use {Value, World, Answer}

  load_reads :
      (o : Opcode) (ops : List Operand) (c : Bool) (ρ ρ' : ℕ → Value) (w : World)
      → Agree (uses (record { opcode = o; operands = ops; continuous = c })) ρ ρ'
      → exec_as m (load m o) (record { opcode = o; operands = ops; continuous = c }) ρ w
        ≡ exec_as m (load m o) (record { opcode = o; operands = ops; continuous = c }) ρ' w
  load_reads load_host ops c ρ ρ' w h = refl
  load_reads load_const ops c ρ ρ' w h = refl
  load_reads load_env ops c ρ ρ' w h = refl
  load_reads make_function ops c ρ ρ' w h = refl
  load_reads make_macro ops c ρ ρ' w h = refl
  load_reads move [] c ρ ρ' w h = refl
  load_reads move (_ ∷ []) c ρ ρ' w h = refl
  load_reads move (_ ∷ _ ∷ _ ∷ _) c ρ ρ' w h = refl
  load_reads move (d ∷ s ∷ []) c ρ ρ' w h =
      ap
        (λ (v : Option Value).
          loaded m (record { opcode = move; operands = d ∷ s ∷ []; continuous = c }) w
            (to_register d v))
        (read-agrees s ρ ρ' (λ a k. h a (move_reads d s c a k)))
  load_reads build_tuple [] c ρ ρ' w h = refl
  load_reads build_tuple (d ∷ ops) c ρ ρ' w h =
      ap
        (λ (v : Option (List Value)).
          loaded m (record { opcode = build_tuple; operands = d ∷ ops; continuous = c }) w
            (v >>= λ vs. to_register d (some (m.tuple_of vs))))
        (read_all-agrees ops ρ ρ' (λ p a k. h a (build_tuple_reads d ops c p a k)))
  load_reads _ ops c ρ ρ' w h = m.other_reads _ ρ ρ' w h

  -- An instruction depends only on the registers that the tables say it reads.
  pub exec_reads :
      (i : Instruction) (ρ ρ' : ℕ → Value) (w : World)
      → Agree (uses i) ρ ρ'
      → exec m i ρ w ≡ exec m i ρ' w
  unfolding exec
  exec_reads i ρ ρ' w h = load_reads i.opcode i.operands i.continuous ρ ρ' w h
