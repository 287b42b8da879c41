-- ===== src/Cst/Parser/Turns.antt =====
-- One turn of each loop of the parser, and what it leaves to read.
use qy.Prelude.{
  ℕ, zero, suc, ◌+◌, ◌<◌, ◌≤◌, ◌≡◌, ◌∙◌, refl, ap, subst, false, [], ◌∷◌, arith, length,
  length-append,
}
use qy.Cst.Tree.{Text, AtomKind, Node, Nodes, end, node, Tail, no_tail, a_tail, snoc}
use qy.Cst.Lexer.{Cursor, advance}
use qy.Cst.Parser.{
  token, lex_atom, consume_trivia, close_paren, dot, form, ahead, no_form, bump, parsed, ◌>>=◌,
  parse_atom, ListState, close_list, parse_node, parse_list,
}
use qy.Cst.Parser.Tokens.{lex_atom-token, bump-cons}
use qy.Cst.Parser.Grammar.{Skips, NoParen}
use qy.Cst.Parser.Source.{Skips-joined}

-- The characters left.
abbrev pub left : Cursor → ℕ
left cur = length cur.rest

pub Skips-le : (cur : Cursor) (t : Text) (cur' : Cursor) → Skips cur t cur' → left cur' ≤ left cur
Skips-le cur t cur' e =
    omega
      (arith, length-append t cur'.rest, ap (λ (r : Text). length r) (Skips-joined cur t cur' e))

pub bump-lt : (cur : Cursor) (c : ℕ) (cs : Text) → cur.rest ≡ c ∷ cs → left (bump cur) < left cur
bump-lt cur c cs e =
    omega (arith, ap (λ (r : Text). length r) e, ap (λ (r : Text). length r) (bump-cons cur c cs e))

pub token-lt :
    (cur : Cursor) (kind : AtomKind) (text rest : Text)
    → lex_atom cur.rest ≡ token kind text rest
    → length rest < left cur
token-lt cur kind text rest e =
    let (joined, some_text) = lex_atom-token cur.rest kind text rest e in
    omega (arith, length-append text rest, ap (λ (r : Text). length r) joined)

-- Two rows of nodes.
abbrev pub join : Nodes → Nodes → Nodes
join end ns = ns
join (node m ms) ns = node m (join ms ns)

pub join-end : (ms : Nodes) → join ms end ≡ ms
join-end end = refl
join-end (node m ms) = ap (λ (r : Nodes). node m r) (join-end ms)

pub join-snoc : (ms : Nodes) (n : Node) (ns : Nodes) → join (snoc ms n) ns ≡ join ms (node n ns)
unfolding snoc
join-snoc end n ns = refl
join-snoc (node m ms) n ns = ap (λ (r : Nodes). node m r) (join-snoc ms n ns)

-- The state of the loop.
abbrev pub state : Cursor → Text → Nodes → Text → Tail → ListState
state start lead ns dt t = record {
  start = start;
  leading = lead;
  children = ns;
  dot_trivia = dt;
  tail = t;
}

-- One turn of the loop over a list, by what it sees.
module _ (fuel : ℕ) (st : ListState) (cur : Cursor) where
  pub see-close :
      ahead (consume_trivia cur).1.rest ≡ close_paren
      → parse_list (suc fuel) st cur
        ≡ parsed
            (close_list st (consume_trivia cur).0 (bump (consume_trivia cur).1))
            (bump (consume_trivia cur).1)
  unfolding parse_node
  see-close ah = rw (ah, parse_list)

  pub see-form :
      ahead (consume_trivia cur).1.rest ≡ form
      → parse_list (suc fuel) st cur ≡ (
          parse_node fuel (consume_trivia cur).0 (consume_trivia cur).1 >>= λ n cur'.
          parse_list fuel (record st { children = snoc st.children n }) cur')
  unfolding parse_node
  see-form ah = rw (ah, parse_list)

  pub see-dot :
      ahead (consume_trivia cur).1.rest ≡ dot
      → no_form (consume_trivia (bump (consume_trivia cur).1)).1.rest ≡ false
      → parse_list (suc fuel) st cur ≡ (
          parse_node fuel
            (consume_trivia (bump (consume_trivia cur).1)).0
            (consume_trivia (bump (consume_trivia cur).1)).1
          >>= λ n cur'.
              parse_list fuel
                (record st { dot_trivia = (consume_trivia cur).0; tail = a_tail n })
                cur')
  unfolding parse_node
  see-dot ah nf = rw (ah, nf, parse_list)

  pub turn-close :
      (t : Text) (here : Cursor)
      → Skips cur t here
      → ahead here.rest ≡ close_paren
      → parse_list (suc fuel) st cur ≡ parsed (close_list st t (bump here)) (bump here)
  turn-close t here sk =
      subst
        (λ (r : Text × Cursor).
          ahead r.1.rest ≡ close_paren
          → parse_list (suc fuel) st cur ≡ parsed (close_list st r.0 (bump r.1)) (bump r.1))
        sk see-close

  pub turn-form :
      (t : Text) (here : Cursor)
      → Skips cur t here
      → ahead here.rest ≡ form
      → parse_list (suc fuel) st cur ≡ (
          parse_node fuel t here >>= λ n cur'.
          parse_list fuel (record st { children = snoc st.children n }) cur')
  turn-form t here sk =
      subst
        (λ (r : Text × Cursor).
          ahead r.1.rest ≡ form
          → parse_list (suc fuel) st cur ≡ (
              parse_node fuel r.0 r.1 >>= λ n cur'.
              parse_list fuel (record st { children = snoc st.children n }) cur'))
        sk see-form

  -- The turn at a dot, for what stands before the dot and what stands behind it.
  abbrev pub TurnDot : Text × Cursor → Text × Cursor → Type 0
  TurnDot r r' =
      ahead r.1.rest ≡ dot
      → no_form r'.1.rest ≡ false
      → parse_list (suc fuel) st cur ≡ (
          parse_node fuel r'.0 r'.1 >>= λ n cur'.
          parse_list fuel (record st { dot_trivia = r.0; tail = a_tail n }) cur')

  pub turn-dot :
      (r r' : Text × Cursor)
      → consume_trivia cur ≡ r
      → consume_trivia (bump r.1) ≡ r'
      → TurnDot r r'
  turn-dot r r' e e' =
      subst (λ (x : Text × Cursor). TurnDot x r') e
        (subst (λ (y : Text × Cursor). TurnDot (consume_trivia cur) y)
          (ap (λ (x : Text × Cursor). consume_trivia (bump x.1)) e ∙ e') see-dot)

pub spare : (n fuel : ℕ) → n + 1 ≤ fuel → (k : ℕ) × (fuel ≡ suc k)
spare n zero h = absurd (omega arith)
spare n (suc k) h = (k, refl)

pub node-list :
    (fuel : ℕ) (lead : Text) (cur : Cursor) (cs : Text)
    → cur.rest ≡ b'(' ∷ cs
    → parse_node (suc fuel) lead cur
      ≡ parse_list fuel (state cur lead end [] no_tail) (advance (b'(' ∷ []) cs cur)
unfolding parse_node
node-list fuel lead cur cs e = simp (e, parse_node)

pub atom_turn :
    (fuel : ℕ) (lead : Text) (cur : Cursor) (cs : Text)
    → cur.rest ≡ cs
    → NoParen cs
    → parse_node (suc fuel) lead cur ≡ parse_atom lead cur
unfolding parse_node
atom_turn fuel lead cur [] e h = simp (e, parse_node)
atom_turn fuel lead cur (c ∷ cs) e h = simp (e, h.0, h.1, parse_node)

pub node-atom :
    (fuel : ℕ) (lead : Text) (cur : Cursor)
    → NoParen cur.rest
    → parse_node (suc fuel) lead cur ≡ parse_atom lead cur
node-atom fuel lead cur = atom_turn fuel lead cur cur.rest refl
