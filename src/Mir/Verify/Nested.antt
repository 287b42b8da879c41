-- ===== src/Mir/Verify/Nested.antt =====
-- The two checks of qy/ir/mir/predicates.py accept exactly the functions in which the instructions
-- nest.
use qy.Prelude.{
  ◌≡◌, ◌↔◌, refl, sym, ap, subst, inl, inr, Bool-cases, Option, none, some, List, [], ◌∷◌, ◌++◌,
  ==_iff, true≢false, ◌∙◌, true,
}
use qy.Prelude.Int.{same_int_refl, ℤ, pos, negsuc, same_int}
use qy.Mir.Node.{Instruction, Block, Function}
use qy.Mir.Verify.Problem.{Problem, Diagnostic, report, error}
use qy.Mir.Verify.Pairing.{
  Event, begins, ends, handle_of, Stack, end_handle, handle_event, handle_instructions,
  handle_blocks, close_handles, m9_effect_handle_pairing,
}

-- Words of balanced events: an end closes the latest begin that is open, and names its handle.
pub data Balanced : List Event → Type 0 where
  nothing : Balanced []
  pair :
      {u v : List Event} (h : ℤ) → Balanced u → Balanced v → Balanced (begins h ∷ u ++ (ends h ∷ v))

abbrev pub events_of : Option Event → List Event → List Event
events_of none es = es
events_of (some e) es = e ∷ es

unfoldable pub instruction_events : List Instruction → List Event → List Event
instruction_events [] es = es
instruction_events (i ∷ is) es =
    events_of (handle_of i.opcode i.operands) (instruction_events is es)

-- The events of the function's instructions, in order.
unfoldable pub handle_events : List Block → List Event
handle_events [] = []
handle_events (b ∷ bs) = instruction_events b.instructions (handle_events bs)

-- What is left to be read, from a stack of open handles on.
unfoldable pub Closes : List ℤ → List Event → Type 0
Closes [] [] = Unit
Closes (_ ∷ _) [] = ⊥
Closes hs (begins h ∷ es) = Closes (h ∷ hs) es
Closes [] (ends h ∷ es) = ⊥
Closes (g ∷ hs) (ends h ∷ es) = (g ≡ h) × Closes hs es

append_assoc : {A : Type 0} (xs ys zs : List A) → (xs ++ ys) ++ zs ≡ xs ++ (ys ++ zs)
append_assoc [] ys zs = refl
append_assoc {A} (x ∷ xs) ys zs = ap (λ (l : List A). x ∷ l) (append_assoc xs ys zs)

append_nil : {A : Type 0} (xs : List A) → xs ++ [] ≡ xs
append_nil [] = refl
append_nil {A} (x ∷ xs) = ap (λ (l : List A). x ∷ l) (append_nil xs)

Balanced-Closes :
    (u : List Event) (hs : List ℤ) (rest : List Event)
    → Balanced u
    → Closes hs rest
    → Closes hs (u ++ rest)
unfolding Closes
Balanced-Closes [] hs rest nothing c = c
Balanced-Closes _ hs rest (pair {u} {v} h bu bv) c =
    subst (Closes (h ∷ hs)) (sym (append_assoc u (ends h ∷ v) rest))
      (Balanced-Closes u (h ∷ hs) (ends h ∷ v ++ rest) bu (refl, Balanced-Closes v hs rest bv c))

-- A word that closes the open handles, one after the other, with balanced words between.
data Unwinds : List ℤ → List Event → Type 0 where
  last : {es : List Event} → Balanced es → Unwinds [] es
  pop :
      {u es : List Event} (h : ℤ) {hs : List ℤ}
      → Balanced u
      → Unwinds hs es
      → Unwinds (h ∷ hs) (u ++ (ends h ∷ es))

begin-Unwinds :
    (h : ℤ) (hs : List ℤ) (es : List Event) → Unwinds (h ∷ hs) es → Unwinds hs (begins h ∷ es)
begin-Unwinds _ _ _ (pop h b (last c)) = last (pair h b c)
begin-Unwinds _ _ _ (pop {u} h b (pop {u = v} {es = es} g {hs = gs} c w)) =
    subst (λ (l : List Event). Unwinds (g ∷ gs) (begins h ∷ l))
      (append_assoc u (ends h ∷ v) (ends g ∷ es)) (pop g (pair h b c) w)

Closes-Unwinds : (es : List Event) (hs : List ℤ) → Closes hs es → Unwinds hs es
unfolding Closes
Closes-Unwinds [] [] c = last nothing
Closes-Unwinds [] (h ∷ hs) c = absurd c
Closes-Unwinds (begins h ∷ es) hs c = begin-Unwinds h hs es (Closes-Unwinds es (h ∷ hs) c)
Closes-Unwinds (ends h ∷ es) [] c = absurd c
Closes-Unwinds (ends h ∷ es) (g ∷ hs) (q, c) = rw q (pop h nothing (Closes-Unwinds es hs c))

unwound : (es : List Event) → Unwinds [] es → Balanced es
unwound es (last b) = b

Closes-nothing : Closes [] []
unfolding Closes
Closes-nothing = tt

Closes-Balanced : (es : List Event) → Closes [] es ↔ Balanced es
Closes-Balanced es = (
  λ c. unwound es (Closes-Unwinds es [] c),
  λ b. subst (Closes []) (append_nil es) (Balanced-Closes es [] [] b Closes-nothing),
)

-- Nothing is reported, and the open handles are closed by what follows.
abbrev Closing : Stack → List Event → Type 0
Closing s es = (s.reported ≡ []) × Closes s.handles es

snoc≢nil : {A : Type 0} (xs : List A) (x : A) → ¬ (xs ++ (x ∷ []) ≡ [])
snoc≢nil [] x h = cc
snoc≢nil (y ∷ ys) x h = cc

same_int-eq : (y z : ℤ) → same_int y z ≡ true → y ≡ z
same_int-eq (pos m) (pos n) h = ap pos ((==_iff m n).0 h)
same_int-eq (negsuc m) (negsuc n) h = ap negsuc ((==_iff m n).0 h)
same_int-eq (pos m) (negsuc n) h = cc
same_int-eq (negsuc m) (pos n) h = cc

end-Closing :
    (say : Problem → Diagnostic) (h : ℤ) (hs : List ℤ) (reported : List Diagnostic)
    (es : List Event)
    → Closing (end_handle say h hs (record { handles = hs; reported = reported })) es
      ↔ ((reported ≡ []) × Closes hs (ends h ∷ es))
unfolding Closes
end-Closing say h [] reported es = (λ c. absurd (snoc≢nil reported _ c.0), λ c. absurd c.1)
end-Closing say h (g ∷ hs) reported es = elim (Bool-cases (same_int g h)) [
  | inl q ↦ rw q (λ c. (c.0, (same_int-eq g h q, c.1)), λ c. (c.0, c.1.1))
  | inr q ↦ rw q (
    λ c. absurd (snoc≢nil reported _ c.0),
    λ c. absurd (true≢false (sym (same_int_refl g) ∙ (ap (same_int g) c.1.0 ∙ q))),
  )
]

event-Closing :
    (say : Problem → Diagnostic) (e : Option Event) (s : Stack) (es : List Event)
    → Closing (handle_event say e s) es ↔ Closing s (events_of e es)
unfolding Closes
event-Closing say none s es = (λ c. c, λ c. c)
event-Closing say (some (begins h)) s es = (λ c. c, λ c. c)
event-Closing say (some (ends h)) s es = end-Closing say h s.handles s.reported es

instructions-Closing :
    (say : Problem → Diagnostic) (is : List Instruction) (s : Stack) (es : List Event)
    → Closing (handle_instructions say is s) es ↔ Closing s (instruction_events is es)
unfolding handle_instructions instruction_events
instructions-Closing say [] s es = (λ c. c, λ c. c)
instructions-Closing say (i ∷ is) s es =
    let e = handle_of i.opcode i.operands in
    let p = instructions-Closing say is (handle_event say e s) es in
    let q = event-Closing say e s (instruction_events is es) in (λ c. q.0 (p.0 c), λ c. p.1 (q.1 c))

blocks-Closing :
    (f : Function) (bs : List Block) (s : Stack)
    → Closing (handle_blocks f bs s) [] ↔ Closing s (handle_events bs)
unfolding handle_blocks handle_events
blocks-Closing f [] s = (λ c. c, λ c. c)
blocks-Closing f (b ∷ bs) s =
    let say = report error (some f.name) (some b.id) in
    let p = blocks-Closing f bs (handle_instructions say b.instructions s) in
    let q = instructions-Closing say b.instructions s (handle_events bs) in
    (λ c. q.0 (p.0 c), λ c. p.1 (q.1 c))

close-Closing :
    (f : Function) (hs : List ℤ) (reported : List Diagnostic)
    → (close_handles f hs reported ≡ []) ↔ ((reported ≡ []) × Closes hs [])
unfolding Closes
close-Closing f [] reported = (λ c. (c, tt), λ c. c.0)
close-Closing f (h ∷ hs) reported = (λ c. absurd (snoc≢nil reported _ c), λ c. absurd c.1)

-- The check of handles reports nothing exactly where the handle instructions of the function, over
-- its blocks in order, are balanced.
pub m9_effect_handle_pairing-Balanced :
    (f : Function) → (m9_effect_handle_pairing f ≡ []) ↔ Balanced (handle_events f.blocks)
unfolding m9_effect_handle_pairing
m9_effect_handle_pairing-Balanced f =
    let start : Stack = record { handles = []; reported = [] } in
    let s = handle_blocks f f.blocks start in
    let p = close-Closing f s.handles s.reported in
    let q = blocks-Closing f f.blocks start in
    let r = Closes-Balanced (handle_events f.blocks) in
    (λ c. r.0 (q.0 (p.0 c)).1, λ b. p.1 (q.1 (refl, r.1 b)))
