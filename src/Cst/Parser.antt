-- ===== src/Cst/Parser.antt =====
-- qy/frontend/cst_parser.py: the recursive descent. Each call of a method and each turn of a loop
-- spends one unit of fuel.
pub mod Tokens
pub mod Grammar
pub mod Source
pub mod Turns
pub mod Complete
pub mod Quotes
pub mod Roundtrip
pub mod Ends
use qy.Prelude.{
  ℕ, zero, suc, ◌+◌, ◌*◌, Bool, true, false, Option, none, some, List, [], ◌∷◌, ◌++◌, ◌==◌, length,
  if◌then◌else◌,
}
use qy.Cst.Tree.{
  Text, AtomKind, bare, Span, Node, atom, list, Nodes, end, Tail, no_tail, a_tail, Program, snoc,
}
use qy.Cst.Lexer.{
  Cursor, advance, make_span, scan_trivia, scan_bare, scan_prefix, scan_string, scan_multiline,
  looking_at_multiline, looking_at_quoted, is_dot, is_raw, quoted_kind, multiline_kind,
}

-- The messages of CstParseError.
pub data Problem : Type 0 where
  unexpected_close unclosed_open expected_form : Problem
  empty_atom unterminated_string unterminated_multiline : Problem

pub data Result (A : Type 0) : Type 0 where
  parsed : A → Cursor → Result A
  failed : Problem → Span → Result A
  out_of_fuel : Result A

infixl 5 ◌>>=◌
abbrev pub ◌>>=◌ : {A B : Type 0} → Result A → (A → Cursor → Result B) → Result B
parsed a cur >>= f = f a cur
failed p s >>= f = failed p s
out_of_fuel >>= f = out_of_fuel

-- The token at the start of a text: its kind, its characters and what is left; the problem, with
-- the characters that were consumed; or the loop over a prefix that no quote follows.
pub data Lexed : Type 0 where
  token : AtomKind → Text → Text → Lexed
  broken : Problem → Text → Lexed
  hangs : Lexed

unfoldable pub bare_token : Text × Text → Lexed
bare_token ([], rest) = broken empty_atom []
bare_token (c ∷ t, rest) = token bare (c ∷ t) rest

-- _parse_bare_atom
unfoldable pub lex_bare : Text → Lexed
unfolding bare_token scan_bare
lex_bare cs = bare_token (scan_bare cs)

unfoldable pub close : Problem → AtomKind → Text → Text → Option (Text × Text) → Lexed
close problem kind start body none = broken problem (start ++ body)
close problem kind start body (some r) = token kind (start ++ r.0) r.1

unfoldable pub string_token : Text × Text → Lexed
unfolding close scan_string
string_token (prefix, []) = hangs
string_token (prefix, q ∷ body) =
    close unterminated_string (quoted_kind prefix) (prefix ++ (q ∷ [])) body
      (scan_string (is_raw prefix) body)

-- _parse_quoted_atom
unfoldable pub lex_quoted : Text → Lexed
unfolding string_token scan_prefix
lex_quoted cs = string_token (scan_prefix cs)

unfoldable pub multiline_token : Text × Text → Lexed
unfolding close scan_multiline
multiline_token (prefix, []) = hangs
multiline_token (prefix, a ∷ []) = broken unterminated_multiline (prefix ++ (a ∷ []))
multiline_token (prefix, a ∷ b ∷ []) = broken unterminated_multiline (prefix ++ (a ∷ b ∷ []))
multiline_token (prefix, a ∷ b ∷ c ∷ body) =
    close unterminated_multiline (multiline_kind prefix) (prefix ++ (a ∷ b ∷ c ∷ [])) body
      (scan_multiline body)

-- _parse_multiline_atom
unfoldable pub lex_multiline : Text → Lexed
unfolding multiline_token scan_prefix
lex_multiline cs = multiline_token (scan_prefix cs)

-- The choice of _parse_atom.
unfoldable pub lex_atom : Text → Lexed
unfolding looking_at_multiline looking_at_quoted lex_bare lex_quoted lex_multiline
lex_atom cs =
    if looking_at_multiline cs
    then lex_multiline cs
    else if looking_at_quoted cs
    then lex_quoted cs
    else lex_bare cs

unfoldable pub atom_node : Text → Cursor → Lexed → Result Node
unfolding advance make_span
atom_node lead cur (token kind text rest) =
    let cur' = advance text rest cur in parsed (atom kind text (make_span cur cur') lead) cur'
atom_node lead cur (broken problem consumed) =
    failed problem (make_span cur (advance consumed [] cur))
atom_node lead cur hangs = out_of_fuel

-- _parse_atom
unfoldable pub parse_atom : Text → Cursor → Result Node
unfolding atom_node lex_atom
parse_atom lead cur = atom_node lead cur (lex_atom cur.rest)

-- _consume_trivia
unfoldable pub consume_trivia : Cursor → Text × Cursor
unfolding scan_trivia advance
consume_trivia cur = let r = scan_trivia false cur.rest in (r.0, advance r.0 r.1 cur)

-- The span of one character.
abbrev pub one_wide : Cursor → Span
one_wide cur = record {
  start_line = cur.line;
  start_column = cur.column;
  end_line = cur.line;
  end_column = cur.column + 1;
}

-- What a turn of the loop over a list sees after the trivia.
pub data Ahead : Type 0 where
  nothing close_paren dot form : Ahead

unfoldable pub ahead : Text → Ahead
unfolding is_dot
ahead [] = nothing
ahead (c ∷ cs) = if c == b')' then close_paren else if is_dot (c ∷ cs) then dot else form

-- Is a form missing after a dot?
unfoldable pub no_form : Text → Bool
no_form [] = true
no_form (c ∷ cs) = c == b')'

abbrev after_first : Text → Text
after_first [] = []
after_first (c ∷ cs) = cs

-- The cursor after one character.
unfoldable pub bump : Cursor → Cursor
unfolding advance
bump cur = elim cur.rest [ [] ↦ cur | c ∷ cs ↦ advance (c ∷ []) cs cur ]

-- The state of the loop of _parse_list: the cursor of the open parenthesis, its leading trivia,
-- and the local variables.
pub record ListState : Type 0 where
  pub start : Cursor
  pub leading : Text
  pub children : Nodes
  pub dot_trivia : Text
  pub tail : Tail

unfoldable pub close_list : ListState → Text → Cursor → Node
unfolding make_span
close_list st close_trivia cur =
    list st.children (make_span st.start cur) st.leading st.dot_trivia st.tail close_trivia

unfoldable mutual
  unfolding parse_atom

  -- _parse_node
  pub parse_node : ℕ → Text → Cursor → Result Node
  parse_node zero lead cur = out_of_fuel
  parse_node (suc fuel) lead cur = elim cur.rest [
    | [] ↦ parse_atom lead cur
    | c ∷ cs ↦
        let opened =
          parse_list fuel
            (record {
              start = cur;
              leading = lead;
              children = end;
              dot_trivia = [];
              tail = no_tail;
            })
            (advance (c ∷ []) cs cur) in
        if c == b'('
        then opened
        else if c == b')'
        then failed unexpected_close (one_wide cur)
        else parse_atom lead cur
  ]

  -- The loop of _parse_list.
  pub parse_list : ℕ → ListState → Cursor → Result Node
  parse_list zero st cur = out_of_fuel
  parse_list (suc fuel) st cur =
      let trivia = (consume_trivia cur).0 in
      let here = (consume_trivia cur).1 in
      elim (ahead here.rest) [
        | nothing ↦ failed unclosed_open (make_span st.start here)
        | close_paren ↦ parsed (close_list st trivia (bump here)) (bump here)
        | dot ↦
            let tail_trivia = (consume_trivia (bump here)).0 in
            let there = (consume_trivia (bump here)).1 in
            let found = parse_node fuel tail_trivia there >>= λ n cur'.
            parse_list fuel (record st { dot_trivia = trivia; tail = a_tail n }) cur' in
            if no_form there.rest then failed expected_form (make_span there there) else found
        | form ↦ parse_node fuel trivia here >>= λ n cur'.
            parse_list fuel (record st { children = snoc st.children n }) cur'
      ]

unfoldable pub at_end : Text → Bool
at_end [] = true
at_end (c ∷ cs) = false

-- The loop of parse_program, from the cursor at the start and the nodes so far.
unfoldable pub parse_nodes : ℕ → Cursor → Nodes → Cursor → Result Program
unfolding at_end
parse_nodes zero start children cur = out_of_fuel
parse_nodes (suc fuel) start children cur =
    let trivia = (consume_trivia cur).0 in
    let here = (consume_trivia cur).1 in
    let more =
      parse_node fuel trivia here >>= λ n cur'. parse_nodes fuel start (snoc children n) cur' in
    if at_end here.rest
    then parsed
        (record { children = children; trailing_trivia = trivia; span = make_span start here }) here
    else more

abbrev pub at_start : Text → Cursor
at_start source = record { rest = source; line = 1; column = 1 }

abbrev pub enough_fuel : Text → ℕ
enough_fuel source = 2 * length source + 2

unfoldable pub parse_cst : Text → Result Program
parse_cst source = parse_nodes (enough_fuel source) (at_start source) end (at_start source)
