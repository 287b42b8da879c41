-- ===== src/Mir/Verify/Defined.antt =====
-- What a function without a warning of _verify_def_use ensures: on every path from its first block,
-- a register is defined before it is used.
use qy.Prelude.{
  ℕ, zero, suc, ◌≡◌, refl, sym, ap, ◌∙◌, subst, inl, inr, ◌⊎◌, false, not, Option, none, some, List,
  [], ◌∷◌, ◌++◌, map, filterb, arith, Bool-cases, Option-cases, true≢false, ℕ_discrete,
}
use qy.Prelude.Members.{elem, In, Subset, some_inj, elem→In}
use qy.Mir.Node.{Instruction, Block, Function}
use qy.Mir.Operands.{terminator_targets}
use qy.Mir.Verify.Problem.{use_before_definition}
use qy.Mir.Verify.DefUse.{
  defined_by, instructions_exit, block_exit, intersect, Entry, get, merge, differs, Flow,
  flow_target, flow_targets, flow_block, flow_blocks, flow_round, flow, param_defined, first_entry,
  incoming_of, flow_fuel, opcode_uses, exit_uses, sorted_set, insert_sorted, undefined,
  instructions_undefined, block_undefined, entry_defined, report_blocks, verify_def_use,
}
use qy.Mir.Verify.Flow.{
  get-set_same, get-set_other, subset-Subset, In-merge, block_exit-grows, incoming_of-ends,
  append-grows, instructions_exit-grows,
}
use qy.Mir.Verify.Registers.{append-nil}

-- The target has a set, and the exit set holds it.
abbrev Holds : List ℕ → ℕ → List Entry → Type 0
Holds e t es = (d : List ℕ) × (get t es ≡ some d) × Subset d e

merge-quiet :
    (e : List ℕ) (o : Option (List ℕ))
    → differs (merge e o) o ≡ false
    → (d : List ℕ) × (o ≡ some d) × Subset d e
merge-quiet e none h = cc
merge-quiet e (some d) h =
    (d, refl, λ x m. (In-merge e d x (subset-Subset d (intersect d e) (ground arith) x m)).1)

target-quiet :
    (e : List ℕ) (t : ℕ) (s : Flow)
    → (flow_target e t s).changed ≡ false
    → (flow_target e t s ≡ s) × Holds e t s.incoming
unfolding flow_target
target-quiet e t s h = elim (Bool-cases (differs (merge e (get t s.incoming)) (get t s.incoming))) [
  | inl c ↦ absurd (true≢false (rw c at h))
  | inr c ↦ (rw c refl, merge-quiet e (get t s.incoming) c)
]

targets-quiet :
    (e ids : List ℕ) (s : Flow)
    → (flow_targets e ids s).changed ≡ false
    → (flow_targets e ids s ≡ s) × ((t : ℕ) → In t ids → Holds e t s.incoming)
unfolding flow_targets
targets-quiet e [] s h = (refl, λ t m. absurd m)
targets-quiet e (t ∷ ids) s h =
    let s' = flow_target e t s in
    let (q, all) = targets-quiet e ids s' h in
    let (p, holds) = target-quiet e t s (sym (ap (λ (x : Flow). x.changed) q) ∙ h) in
    (
      q ∙ p,
      λ x m. elim m [
        | inl z ↦ rw z holds
        | inr k ↦ rw (ap (λ (y : Flow). y.incoming) p) at (all x k)
      ],
    )

-- What the fixed point of the loop satisfies.
abbrev Settled : List Block → List Entry → Type 0
Settled bs es =
    (b : Block) (d : List ℕ) (t : ℕ)
    → In b bs
    → get b.id es ≡ some d
    → In t (terminator_targets b.terminator)
    → Holds (block_exit b d) t es

block-quiet :
    (b : Block) (s : Flow)
    → (flow_block b s).changed ≡ false
    → (flow_block b s ≡ s)
      × ((d : List ℕ) (t : ℕ)
          → get b.id s.incoming ≡ some d
          → In t (terminator_targets b.terminator)
          → Holds (block_exit b d) t s.incoming)
unfolding flow_block
block-quiet b s h = elim (Option-cases (get b.id s.incoming)) [
  | inl e ↦ (rw e refl, λ d t q. cc)
  | inr (c, e) ↦
      let (p, all) =
        targets-quiet (block_exit b c) (terminator_targets b.terminator) s (rw e at h) in
      (rw e p, λ d t q m. rw (← some_inj (sym e ∙ q)) (all t m))
]

blocks-quiet :
    (bs : List Block) (s : Flow)
    → (flow_blocks bs s).changed ≡ false
    → (flow_blocks bs s ≡ s) × Settled bs s.incoming
unfolding flow_blocks
blocks-quiet [] s h = (refl, λ b d t m. absurd m)
blocks-quiet (b ∷ bs) s h =
    let s' = flow_block b s in
    let (q, all) = blocks-quiet bs s' h in
    let (p, here) = block-quiet b s (sym (ap (λ (x : Flow). x.changed) q) ∙ h) in
    (
      q ∙ p,
      λ c d t m e k. elim m [
        | inl z ↦ rw z (here d t (rw z at e) (rw z at k))
        | inr n ↦
            subst (λ (x : Flow). Holds (block_exit c d) t x.incoming) p
              (all c d t n (rw (ap (λ (x : Flow). x.incoming) p) e) k)
      ],
    )

flow-Settled :
    (fuel : ℕ) (bs : List Block) (es es' : List Entry) → flow fuel bs es ≡ some es' → Settled bs es'
unfolding flow
flow-Settled zero bs es es' h = cc
flow-Settled (suc fuel) bs es es' h = elim (Bool-cases (flow_round bs es).changed) [
  | inl c ↦ flow-Settled fuel bs (flow_round bs es).incoming es' (rw c at h)
  | inr c ↦
      let start : Flow = record { incoming = es; changed = false } in
      let (q, all) = blocks-quiet bs start c in
      let r = ap (λ (x : Flow). x.incoming) q in
      subst (Settled bs) (sym r ∙ some_inj (rw c at h)) all
]

-- The set of a block loses registers alone.
abbrev Shrinks : List Entry → List Entry → Type 0
Shrinks es es' =
    (id : ℕ) (d : List ℕ)
    → get id es ≡ some d
    → (d' : List ℕ) × (get id es' ≡ some d') × Subset d' d

Shrinks-refl : (es : List Entry) → Shrinks es es
Shrinks-refl es id d e = (d, e, λ x m. m)

Shrinks-trans : (es es' es'' : List Entry) → Shrinks es es' → Shrinks es' es'' → Shrinks es es''
Shrinks-trans es es' es'' p q id d e =
    let (d', e', h) = p id d e in let (d'', e'', k) = q id d' e' in (d'', e'', λ x m. h x (k x m))

merge-Shrinks : (e d : List ℕ) (o : Option (List ℕ)) → o ≡ some d → Subset (merge e o) d
merge-Shrinks e d none q x m = cc
merge-Shrinks e d (some c) q x m = rw (← some_inj q) (In-merge e c x m).0

target-Shrinks : (e : List ℕ) (t : ℕ) (s : Flow) → Shrinks s.incoming (flow_target e t s).incoming
unfolding flow_target
target-Shrinks e t s id d q =
    let m = merge e (get t s.incoming) in
    elim (Bool-cases (differs m (get t s.incoming))) [
      | inr c ↦ rw c (d, q, λ x k. k)
      | inl c ↦ elim (ℕ_discrete id t) [
        | yes p ↦
            rw (c, p)
              (m, get-set_same t m s.incoming, merge-Shrinks e d (get t s.incoming) (rw p at q))
        | no p ↦ rw c (d, get-set_other t id m s.incoming p ∙ q, λ x k. k)
      ]
    ]

targets-Shrinks : (e ids : List ℕ) (s : Flow) → Shrinks s.incoming (flow_targets e ids s).incoming
unfolding flow_targets
targets-Shrinks e [] s = Shrinks-refl s.incoming
targets-Shrinks e (t ∷ ids) s =
    Shrinks-trans s.incoming (flow_target e t s).incoming
      (flow_targets e ids (flow_target e t s)).incoming (target-Shrinks e t s)
      (targets-Shrinks e ids (flow_target e t s))

blocks-Shrinks : (bs : List Block) (s : Flow) → Shrinks s.incoming (flow_blocks bs s).incoming
unfolding flow_blocks flow_block
blocks-Shrinks [] s = Shrinks-refl s.incoming
blocks-Shrinks (b ∷ bs) s =
    Shrinks-trans s.incoming (flow_block b s).incoming (flow_blocks bs (flow_block b s)).incoming
      (elim (Option-cases (get b.id s.incoming)) [
        | inl e ↦ rw e (Shrinks-refl s.incoming)
        | inr (d, e) ↦ rw e (targets-Shrinks (block_exit b d) (terminator_targets b.terminator) s)
      ])
      (blocks-Shrinks bs (flow_block b s))

flow-Shrinks :
    (fuel : ℕ) (bs : List Block) (es es' : List Entry) → flow fuel bs es ≡ some es' → Shrinks es es'
unfolding flow
flow-Shrinks zero bs es es' h = cc
flow-Shrinks (suc fuel) bs es es' h =
    let start : Flow = record { incoming = es; changed = false } in
    let s = flow_round bs es in
    elim (Bool-cases s.changed) [
      | inl c ↦
          Shrinks-trans es s.incoming es' (blocks-Shrinks bs start)
            (flow-Shrinks fuel bs s.incoming es' (rw c at h))
      | inr c ↦ subst (Shrinks es) (some_inj (rw c at h)) (blocks-Shrinks bs start)
    ]

-- A path from the entry to a block, with the registers that are defined on it.
pub data Arrives (bs : List Block) (entry : ℕ) (params : List ℕ) : ℕ → List ℕ → Type 0 where
  begin : Arrives bs entry params entry params
  follow :
      {d : List ℕ} (b : Block) (t : ℕ)
      → Arrives bs entry params b.id d
      → In b bs
      → In t (terminator_targets b.terminator)
      → Arrives bs entry params t (block_exit b d)

Arrives-below :
    (bs : List Block) (entry : ℕ) (params : List ℕ) (es : List Entry)
    → Settled bs es
    → (d : List ℕ) × (get entry es ≡ some d) × Subset d params
    → (id : ℕ) (defined : List ℕ) → Arrives bs entry params id defined
    → (d : List ℕ) × (get id es ≡ some d) × Subset d defined
Arrives-below bs entry params es settled h id defined begin = h
Arrives-below bs entry params es settled h id defined (follow {d} b t a m k) =
    let (c, e, below) = Arrives-below bs entry params es settled h b.id d a in
    let (c', e', below') = settled b c t m e k in
    (c', e', λ x n. block_exit-grows b c d below x (below' x n))

-- Every register that an instruction or the terminator uses is defined when it does.
unfoldable pub AllDefined : List Instruction → List ℕ → Type 0
AllDefined [] defined = Unit
AllDefined (i ∷ is) defined =
    Subset (opcode_uses i.opcode i.operands) defined × AllDefined is (defined_by i ++ defined)

abbrev pub IsDefined : Block → List ℕ → Type 0
IsDefined b defined =
    AllDefined b.instructions defined
    × Subset (exit_uses b.terminator.opcode b.terminator.operands)
        (instructions_exit b.instructions defined)

In-insert_sorted : (x : ℕ) (ys : List ℕ) (a : ℕ) → (a ≡ x) ⊎ In a ys → In a (insert_sorted x ys)
In-insert_sorted x [] a h = h
In-insert_sorted x (y ∷ ys) a h = ground (arith, h, In-insert_sorted x ys a)

In-sorted_set : (xs : List ℕ) (a : ℕ) → In a xs → In a (sorted_set xs)
In-sorted_set [] a h = h
In-sorted_set (x ∷ xs) a (inl q) = In-insert_sorted x (sorted_set xs) a (inl q)
In-sorted_set (x ∷ xs) a (inr k) = In-insert_sorted x (sorted_set xs) a (inr (In-sorted_set xs a k))

cons≢nil : {x : ℕ} {xs : List ℕ} → ¬ (x ∷ xs ≡ [])
cons≢nil h = cc

filter-nil : (xs ys : List ℕ) → filterb (λ r. not (elem r ys)) xs ≡ [] → Subset xs ys
filter-nil [] ys h a m = absurd m
filter-nil (x ∷ xs) ys h a m = elim (Bool-cases (elem x ys)) [
  | inl c ↦ elim m [
    | inl q ↦ rw q (elem→In x ys c)
    | inr k ↦ filter-nil xs ys (rw (c, filterb) at h) a k
  ]
  | inr c ↦ absurd (cons≢nil (rw (c, filterb) at h))
]

undefined-nil : (used defined : List ℕ) → undefined used defined ≡ [] → Subset used defined
unfolding undefined
undefined-nil used defined h a m = filter-nil (sorted_set used) defined h a (In-sorted_set used a m)

instructions-AllDefined :
    (is : List Instruction) (d : List ℕ) → instructions_undefined is d ≡ [] → AllDefined is d
unfolding instructions_undefined AllDefined
instructions-AllDefined [] d h = tt
instructions-AllDefined (i ∷ is) d h =
    let (p, q) = append-nil (undefined (opcode_uses i.opcode i.operands) d) _ h in
    (
      undefined-nil (opcode_uses i.opcode i.operands) d p,
      instructions-AllDefined is (defined_by i ++ d) q,
    )

block-IsDefined : (b : Block) (d : List ℕ) → block_undefined b d ≡ [] → IsDefined b d
unfolding block_undefined
block-IsDefined b d h =
    let (p, q) = append-nil (instructions_undefined b.instructions d) _ h in
    (
      instructions-AllDefined b.instructions d p,
      undefined-nil (exit_uses b.terminator.opcode b.terminator.operands) _ q,
    )

AllDefined-grows :
    (is : List Instruction) (d d' : List ℕ) → Subset d d' → AllDefined is d → AllDefined is d'
unfolding AllDefined
AllDefined-grows [] d d' h k = tt
AllDefined-grows (i ∷ is) d d' h (k, ks) = (
  λ x m. h x (k x m),
  AllDefined-grows is (defined_by i ++ d) (defined_by i ++ d') (append-grows (defined_by i) d d' h)
      ks,
)

IsDefined-grows : (b : Block) (d d' : List ℕ) → Subset d d' → IsDefined b d → IsDefined b d'
IsDefined-grows b d d' h (k, l) = (
  AllDefined-grows b.instructions d d' h k,
  λ x m. instructions_exit-grows b.instructions d d' h x (l x m),
)

map-nil : {A B : Type 0} (g : A → B) (xs : List A) → map g xs ≡ [] → xs ≡ []
map-nil g [] h = refl
map-nil g (x ∷ xs) h = cc

entry-some :
    (f : Function) (es : List Entry) (c : Block) (d : List ℕ)
    → get c.id es ≡ some d
    → entry_defined f (get c.id es) ≡ d
entry-some f es c d e = rw e refl

report-IsDefined :
    (f : Function) (es : List Entry) (bs : List Block) (b : Block) (d : List ℕ)
    → report_blocks f es bs ≡ []
    → In b bs
    → get b.id es ≡ some d
    → IsDefined b d
unfolding report_blocks
report-IsDefined f es [] b d h m e = absurd m
report-IsDefined f es (c ∷ bs) b d h m e =
    let (p, q) = append-nil _ (report_blocks f es bs) h in
    elim m [
      | inl z ↦
          let k = map-nil use_before_definition _ (map-nil _ _ p) in
          block-IsDefined b d (rw (z, ← entry-some f es c d (rw z at e)) k)
      | inr n ↦ report-IsDefined f es bs b d q n e
    ]

first-get :
    (b : Block) (bs : List Block) (ps : List ℕ) → get b.id (first_entry (b ∷ bs) ps) ≡ some ps
first-get b bs ps = get-set_same b.id ps []

incoming-Settled : (f : Function) (es : List Entry) → incoming_of f ≡ some es → Settled f.blocks es
unfolding incoming_of
incoming-Settled f es e = flow-Settled (flow_fuel f) f.blocks _ es e

incoming-first :
    (f : Function) (c : Block) (cs : List Block) (es : List Entry)
    → f.blocks ≡ c ∷ cs
    → incoming_of f ≡ some es
    → (d : List ℕ) × (get c.id es ≡ some d) × Subset d (param_defined f)
unfolding incoming_of
incoming-first f c cs es q e =
    flow-Shrinks (flow_fuel f) f.blocks (first_entry f.blocks (param_defined f)) es e c.id
      (param_defined f) (rw q (first-get c cs (param_defined f)))

-- Where the check warns of nothing, then on every path from the function's first block, each
-- register that an instruction or a terminator uses is a parameter or was written before.
pub verify_def_use-IsDefined :
    (f : Function) (c : Block) (cs : List Block) (b : Block) (defined : List ℕ)
    → f.blocks ≡ c ∷ cs
    → verify_def_use f ≡ []
    → In b f.blocks
    → Arrives f.blocks c.id (param_defined f) b.id defined
    → IsDefined b defined
unfolding verify_def_use
verify_def_use-IsDefined f c cs b defined q h m a =
    let (es, e) = incoming_of-ends f in
    let (d, g, below) =
      Arrives-below f.blocks c.id (param_defined f) es (incoming-Settled f es e)
        (incoming-first f c cs es q e) b.id defined a in
    IsDefined-grows b d defined below (report-IsDefined f es f.blocks b d (rw e at h) m g)
