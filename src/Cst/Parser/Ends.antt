-- ===== src/Cst/Parser/Ends.antt =====
-- The parser ends on every text.
use qy.Prelude.{
  ℕ, zero, suc, ◌+◌, ◌*◌, ◌<◌, ◌≤◌, ◌≡◌, ◌≢◌, ◌∙◌, refl, ap, inl, inr, true, false, [], ◌∷◌, arith,
  length, length-append, Bool-cases, ==_iff, ◌==◌,
}
use qy.Cst.Tree.{Text, Node, Nodes, end, a_tail, snoc}
use qy.Cst.Lexer.{Cursor, advance}
use qy.Cst.Parser.{
  unexpected_close, Lexed, token, broken, hangs, lex_atom, consume_trivia, Ahead, nothing,
  close_paren, dot, form, ahead, no_form, bump, at_end, at_start, Result, parsed, failed,
  out_of_fuel, ◌>>=◌, atom_node, parse_atom, ListState, one_wide, parse_node, parse_list,
  parse_nodes, parse_cst, enough_fuel,
}
use qy.Cst.Parser.Tokens.{IsPiece, lex_atom-IsPiece, consume_trivia-joined}
use qy.Cst.Parser.Turns.{left}
use qy.Cst.Parser.Quotes.{IsDone, lex_atom-IsDone}
use qy.Cst.Parser.Turns.{bump-lt, node-list, atom_turn, see-close, see-form, see-dot}
use qy.Cst.Parser.Source.{ahead-close, ahead-dot}

-- A result, with fewer than `n` characters left where it is a tree.
abbrev Settles : {A : Type 0} → ℕ → Result A → Type 0
Settles n (parsed a cur) = left cur < n
Settles n (failed problem span) = Unit
Settles n out_of_fuel = ⊥

Settles-weaken : {A : Type 0} (m n : ℕ) (r : Result A) → m ≤ n → Settles m r → Settles n r
Settles-weaken m n (parsed a cur) h s = omega arith
Settles-weaken m n (failed problem span) h s = tt
Settles-weaken m n out_of_fuel h s = s

Settles->>= :
    {A B : Type 0} (m n : ℕ) (r : Result A) (f : A → Cursor → Result B)
    → Settles m r
    → ((a : A) (cur : Cursor) → left cur < m → Settles n (f a cur))
    → Settles n (r >>= f)
Settles->>= m n (parsed a cur) f s k = k a cur s
Settles->>= m n (failed problem span) f s k = tt
Settles->>= m n out_of_fuel f s k = s

atom-Settles :
    (lead : Text) (cur : Cursor) (l : Lexed)
    → IsDone l
    → IsPiece l cur.rest
    → Settles (left cur) (atom_node lead cur l)
unfolding atom_node advance
atom-Settles lead cur (token kind text rest) d p =
    omega (arith, length-append text rest, ap (λ (t : Text). length t) p.0, p.1)
atom-Settles lead cur (broken problem consumed) d p = tt
atom-Settles lead cur hangs d p = d

parse_atom-Settles : (lead : Text) (cur : Cursor) → Settles (left cur) (parse_atom lead cur)
unfolding parse_atom
parse_atom-Settles lead cur =
    atom-Settles lead cur (lex_atom cur.rest) (lex_atom-IsDone cur.rest) (lex_atom-IsPiece cur.rest)

trivia-le : (cur : Cursor) → left (consume_trivia cur).1 ≤ left cur
trivia-le cur = omega (
  arith,
  length-append (consume_trivia cur).0 (consume_trivia cur).1.rest,
  ap (λ (t : Text). length t) (consume_trivia-joined cur),
)

node-close :
    (fuel : ℕ) (lead : Text) (cur : Cursor) (c : ℕ) (cs : Text)
    → cur.rest ≡ c ∷ cs
    → c == b'(' ≡ false
    → c == b')' ≡ true
    → parse_node (suc fuel) lead cur ≡ failed unexpected_close (one_wide cur)
unfolding parse_node
node-close fuel lead cur c cs e p q = simp (e, p, q, parse_node)

-- A call of _parse_node, from the calls that it makes.
node_step :
    (fuel : ℕ) (lead : Text) (cur : Cursor) (cs : Text)
    → cur.rest ≡ cs
    → ((st : ListState) (opened : Cursor)
        → 2 * left opened + 2 ≤ fuel
        → Settles (left opened) (parse_list fuel st opened))
    → 2 * left cur + 1 ≤ suc fuel
    → Settles (left cur) (parse_node (suc fuel) lead cur)
unfolding advance
node_step fuel lead cur [] e k h =
    rw (atom_turn fuel lead cur [] e tt) (parse_atom-Settles lead cur)
node_step fuel lead cur (c ∷ cs) e k h = elim (Bool-cases (c == b'(')) [
  | inl p ↦
      let len = ap (λ (r : Text). length r) e in
      let e' = e ∙ ap (λ (x : ℕ). x ∷ cs) ((==_iff c b'(').0 p) in
      rw (node-list fuel lead cur cs e')
        (Settles-weaken (length cs) (left cur) _ (omega arith) (k _ _ (omega arith)))
  | inr p ↦ elim (Bool-cases (c == b')')) [
    | inl q ↦ rw (node-close fuel lead cur c cs e p q) tt
    | inr q ↦ rw (atom_turn fuel lead cur (c ∷ cs) e (p, q)) (parse_atom-Settles lead cur)
  ]
]

-- A turn of the loop of _parse_list, from the calls that it makes.
module _ (fuel : ℕ) (cur : Cursor) (h : 2 * left cur + 2 ≤ suc fuel)
    (nodes : (lead : Text) (there : Cursor)
      → 2 * left there + 1 ≤ fuel
      → Settles (left there) (parse_node fuel lead there))
    (lists : (st : ListState) (there : Cursor)
      → 2 * left there + 2 ≤ fuel
      → Settles (left there) (parse_list fuel st there)) where
  go_on :
      (lead : Text) (there : Cursor) (next : Node → ListState)
      → left there ≤ left cur
      → Settles (left cur) (parse_node fuel lead there >>= λ n cur'. parse_list fuel (next n) cur')
  go_on lead there next le =
      Settles->>= (left cur) (left cur) (parse_node fuel lead there)
        (λ n cur'. parse_list fuel (next n) cur')
        (Settles-weaken (left there) (left cur) (parse_node fuel lead there) le
          (nodes lead there (omega arith)))
        (λ n cur' lt.
          Settles-weaken (left cur') (left cur) (parse_list fuel (next n) cur') (omega arith)
            (lists (next n) cur' (omega arith)))

  -- The turn, by what stands ahead.
  list_step :
      (st : ListState) (a : Ahead)
      → ahead (consume_trivia cur).1.rest ≡ a
      → Settles (left cur) (parse_list (suc fuel) st cur)
  unfolding parse_node
  list_step st nothing e = rw (e, parse_list) tt
  list_step st close_paren e =
      let here = (consume_trivia cur).1 in
      let (ds, ed) = ahead-close here.rest e in
      rw (see-close fuel st cur e) (omega (arith, trivia-le cur, bump-lt here b')' ds ed))
  list_step st dot e =
      let here = (consume_trivia cur).1 in
      let there = (consume_trivia (bump here)).1 in
      let (ds, ed) = ahead-dot here.rest e in
      let le = trivia-le cur in
      let le' = trivia-le (bump here) in
      let lt = bump-lt here b'.' ds ed in
      elim (Bool-cases (no_form there.rest)) [
        | inl p ↦ rw (e, p, parse_list) tt
        | inr p ↦ rw (see-dot fuel st cur e p) (
            go_on (consume_trivia (bump here)).0 there
              (λ n. record st { dot_trivia = (consume_trivia cur).0; tail = a_tail n })
              (omega arith))
      ]
  list_step st form e = rw (see-form fuel st cur e) (
      go_on (consume_trivia cur).0 (consume_trivia cur).1
        (λ n. record st { children = snoc st.children n }) (trivia-le cur))

mutual
  parse_node-Settles :
      (fuel : ℕ) (lead : Text) (cur : Cursor)
      → 2 * left cur + 1 ≤ fuel
      → Settles (left cur) (parse_node fuel lead cur)
  parse_node-Settles zero lead cur h = absurd (omega arith)
  parse_node-Settles (suc fuel) lead cur h =
      node_step fuel lead cur cur.rest refl (λ st there. parse_list-Settles fuel st there) h

  parse_list-Settles :
      (fuel : ℕ) (st : ListState) (cur : Cursor)
      → 2 * left cur + 2 ≤ fuel
      → Settles (left cur) (parse_list fuel st cur)
  parse_list-Settles zero st cur h = absurd (omega arith)
  parse_list-Settles (suc fuel) st cur h =
      list_step fuel cur h (λ lead there. parse_node-Settles fuel lead there)
        (λ st' there. parse_list-Settles fuel st' there) st (ahead (consume_trivia cur).1.rest) refl

-- The loop over a program.
parse_nodes-Settles :
    (fuel : ℕ) (start : Cursor) (ns : Nodes) (cur : Cursor)
    → 2 * left cur + 2 ≤ fuel
    → Settles (suc (left cur)) (parse_nodes fuel start ns cur)
unfolding parse_nodes
parse_nodes-Settles zero start ns cur h = absurd (omega arith)
parse_nodes-Settles (suc fuel) start ns cur h =
    let here = (consume_trivia cur).1 in
    let le = trivia-le cur in
    let more =
      Settles->>= (left here) (suc (left cur))
        (parse_node fuel (consume_trivia cur).0 (consume_trivia cur).1)
        (λ n cur'. parse_nodes fuel start (snoc ns n) cur')
        (parse_node-Settles fuel (consume_trivia cur).0 (consume_trivia cur).1 (omega arith))
        (λ n cur' lt.
          Settles-weaken (suc (left cur')) (suc (left cur))
            (parse_nodes fuel start (snoc ns n) cur') (omega arith)
            (parse_nodes-Settles fuel start (snoc ns n) cur' (omega arith))) in
    elim (Bool-cases (at_end (consume_trivia cur).1.rest)) [
      | inl p ↦ rw p (omega (arith, trivia-le cur))
      | inr p ↦ rw p more
    ]

not-out_of_fuel : {A : Type 0} (n : ℕ) (r : Result A) → Settles n r → r ≢ out_of_fuel
not-out_of_fuel n r s e = rw e at s

-- On every text the parser ends, with a tree or with one of its problems: the fuel is enough, and
-- the loop over the prefix of a string always finds the quote.
pub parse_cst-ends : (source : Text) → parse_cst source ≢ out_of_fuel
unfolding parse_cst
parse_cst-ends source =
    not-out_of_fuel (suc (length source)) _ (
      parse_nodes-Settles (enough_fuel source) (at_start source) end (at_start source)
        (omega arith))
