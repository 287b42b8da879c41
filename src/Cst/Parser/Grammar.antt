-- ===== src/Cst/Parser/Grammar.antt =====
-- The grammar of qy/frontend/reader.py, with the trivia of qy/frontend/cst.py: a program is a
-- row of forms, and a list is "(" form* (DOT form)? ")", at most one dot with one form after it.
-- Tokens are those of the lexer.
use qy.Prelude.{◌≡◌, true, false, [], ◌∷◌, ◌==◌}
use qy.Cst.Tree.{
  Text, AtomKind, Span, Node, atom, list, Nodes, end, node, Tail, no_tail, a_tail, Program,
}
use qy.Cst.Lexer.{Cursor, advance, make_span}
use qy.Cst.Parser.{
  token, lex_atom, consume_trivia, close_paren, dot, form, ahead, no_form, bump, at_end, at_start,
}

-- `Skips cur t cur'`: the whitespace and the comments from `cur` on are `t`.
abbrev pub Skips : Cursor → Text → Cursor → Type 0
Skips cur t cur' = consume_trivia cur ≡ (t, cur')

-- No parenthesis stands here.
abbrev pub NoParen : Text → Type 0
NoParen [] = Unit
NoParen (c ∷ cs) = (c == b'(' ≡ false) × (c == b')' ≡ false)

mutual
  -- A form from a cursor, behind its leading trivia, up to a cursor.
  pub data Reads : Cursor → Text → Node → Cursor → Type 0 where
    reads_atom :
        {cur cur' : Cursor} {lead text rest : Text} {kind : AtomKind} {sp : Span}
        → NoParen cur.rest
        → lex_atom cur.rest ≡ token kind text rest
        → cur' ≡ advance text rest cur
        → sp ≡ make_span cur cur'
        → Reads cur lead (atom kind text sp lead) cur'
    reads_list :
        {cur opened forms behind closing cur' : Cursor} {lead dt ct cs : Text} {ns : Nodes}
        {t : Tail} {sp : Span}
        → cur.rest ≡ b'(' ∷ cs
        → opened ≡ advance (b'(' ∷ []) cs cur
        → ReadsForms opened ns forms
        → ReadsTail forms dt t behind
        → Skips behind ct closing
        → ahead closing.rest ≡ close_paren
        → cur' ≡ bump closing
        → sp ≡ make_span cur cur'
        → Reads cur lead (list ns sp lead dt t ct) cur'

  -- form*
  pub data ReadsForms : Cursor → Nodes → Cursor → Type 0 where
    no_forms : {cur : Cursor} → ReadsForms cur end cur
    one_form :
        {cur skipped after cur' : Cursor} {lead : Text} {n : Node} {ns : Nodes}
        → Skips cur lead skipped
        → ahead skipped.rest ≡ form
        → Reads skipped lead n after
        → ReadsForms after ns cur'
        → ReadsForms cur (node n ns) cur'

  -- (DOT form)?
  pub data ReadsTail : Cursor → Text → Tail → Cursor → Type 0 where
    untailed : {cur : Cursor} → ReadsTail cur [] no_tail cur
    tailed :
        {cur at_dot dotted skipped cur' : Cursor} {dt lead : Text} {n : Node}
        → Skips cur dt at_dot
        → ahead at_dot.rest ≡ dot
        → dotted ≡ bump at_dot
        → Skips dotted lead skipped
        → no_form skipped.rest ≡ false
        → Reads skipped lead n cur'
        → ReadsTail cur dt (a_tail n) cur'

-- The forms of a program, where a lone dot is an atom.
pub data ReadsTop : Cursor → Nodes → Cursor → Type 0 where
  no_top : {cur : Cursor} → ReadsTop cur end cur
  one_top :
      {cur skipped after cur' : Cursor} {lead : Text} {n : Node} {ns : Nodes}
      → Skips cur lead skipped
      → at_end skipped.rest ≡ false
      → Reads skipped lead n after
      → ReadsTop after ns cur'
      → ReadsTop cur (node n ns) cur'

-- A program: its forms, and the trivia behind them up to the end.
pub data ReadsProgram : Text → Program → Type 0 where
  reads_program :
      {source : Text} {cur last : Cursor} {ns : Nodes} {t : Text} {sp : Span}
      → ReadsTop (at_start source) ns cur
      → Skips cur t last
      → at_end last.rest ≡ true
      → sp ≡ make_span (at_start source) last
      → ReadsProgram source (record { children = ns; trailing_trivia = t; span = sp })
