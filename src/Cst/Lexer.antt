-- ===== src/Cst/Lexer.antt =====
-- qy/frontend/cst_parser.py: the parts of the parser that walk over characters. A cursor holds
-- the text that is left, and the line and column; `_pos` is the length of what was consumed. A
-- walk gives the text that it consumes with what is left, and the cursor moves over that text.
use qy.Prelude.{
  ℕ, ◌+◌, Bool, true, false, not, ◌&&◌, ◌||◌, Option, none, some, [], ◌∷◌, ◌==◌, if◌then◌else◌,
}
use qy.Cst.Tree.{
  Text, AtomKind, quoted, raw_quoted, tagged_quoted, multiline, raw_multiline, tagged_multiline,
  Span,
}

pub record Cursor : Type 0 where
  pub rest : Text
  pub line : ℕ
  pub column : ℕ

-- ch in " \t\n\r"
abbrev pub is_blank : ℕ → Bool
is_blank c = c == 32 || c == 9 || c == 10 || c == 13

-- ch in "() \t\n\r;"
abbrev pub is_delimiter : ℕ → Bool
is_delimiter c = c == b'(' || c == b')' || c == 59 || is_blank c

-- The line and column after one character, and after a text.
abbrev step_line : ℕ → ℕ → ℕ
step_line c l = if c == 10 then l + 1 else l

abbrev step_column : ℕ → ℕ → ℕ
step_column c k = if c == 10 then 1 else k + 1

unfoldable pub moved_line : Text → ℕ → ℕ
moved_line [] l = l
moved_line (c ∷ cs) l = moved_line cs (step_line c l)

unfoldable pub moved_column : Text → ℕ → ℕ
moved_column [] k = k
moved_column (c ∷ cs) k = moved_column cs (step_column c k)

-- The cursor after `text`, with `rest` left.
unfoldable pub advance : Text → Text → Cursor → Cursor
advance text rest cur = record {
  rest = rest;
  line = moved_line text cur.line;
  column = moved_column text cur.column;
}

unfoldable pub make_span : Cursor → Cursor → Span
make_span a b = record {
  start_line = a.line;
  start_column = a.column;
  end_line = b.line;
  end_column = b.column;
}

-- One more character in front of what a walk consumes.
abbrev pub eat : ℕ → Text × Text → Text × Text
eat c r = (c ∷ r.0, r.1)

abbrev pub eat? : ℕ → Option (Text × Text) → Option (Text × Text)
eat? c none = none
eat? c (some r) = some (eat c r)

-- _consume_trivia; the flag says that the walk is inside a comment.
unfoldable pub scan_trivia : Bool → Text → Text × Text
scan_trivia comment [] = ([], [])
scan_trivia comment (c ∷ cs) =
    let inside = eat c (scan_trivia true cs) in
    let outside = eat c (scan_trivia false cs) in
    if comment && not (c == 10)
    then inside
    else if is_blank c
    then outside
    else if c == 59
    then inside
    else ([], c ∷ cs)

-- The loop of _parse_bare_atom.
unfoldable pub scan_bare : Text → Text × Text
scan_bare [] = ([], [])
scan_bare (c ∷ cs) =
    let more = eat c (scan_bare cs) in if is_delimiter c || c == 34 then ([], c ∷ cs) else more

-- The prefix before the opening quote. The source's loop would not end where no quote follows;
-- it is entered only where one does.
unfoldable pub scan_prefix : Text → Text × Text
scan_prefix [] = ([], [])
scan_prefix (c ∷ cs) = let more = eat c (scan_prefix cs) in if c == 34 then ([], c ∷ cs) else more

-- The body of a string after the opening quote, with the closing one. `none`: unterminated.
unfoldable pub scan_string : Bool → Text → Option (Text × Text)
scan_string raw [] = none
scan_string raw (c ∷ []) = if c == 34 then some (c ∷ [], []) else none
scan_string raw (c ∷ d ∷ cs) =
    let escaped = eat? c (eat? d (scan_string raw cs)) in
    let more = eat? c (scan_string raw (d ∷ cs)) in
    if c == 92 && not raw then escaped else if c == 34 then some (c ∷ [], d ∷ cs) else more

-- Three quotes at the start.
abbrev pub starts_triple : Text → Bool
starts_triple (a ∷ b ∷ c ∷ _) = a == 34 && b == 34 && c == 34
starts_triple _ = false

-- The body of a multiline string after the opening quotes, with the closing ones.
unfoldable pub scan_multiline : Text → Option (Text × Text)
scan_multiline [] = none
scan_multiline (a ∷ []) = none
scan_multiline (a ∷ b ∷ []) = none
scan_multiline (a ∷ b ∷ c ∷ cs) =
    let more = eat? a (scan_multiline (b ∷ c ∷ cs)) in
    if starts_triple (a ∷ b ∷ c ∷ cs) then some (a ∷ b ∷ c ∷ [], cs) else more

abbrev pub starts_quote : Text → Bool
starts_quote (c ∷ _) = c == 34
starts_quote [] = false

-- The scan for a quote within the characters of an atom: what stands from the first quote on.
unfoldable pub at_quote : Text → Option Text
at_quote [] = none
at_quote (c ∷ cs) =
    let more = at_quote cs in
    if is_delimiter c then none else if c == 34 then some (c ∷ cs) else more

abbrev triple_there : Option Text → Bool
triple_there none = false
triple_there (some cs) = starts_triple cs

unfoldable pub looking_at_multiline : Text → Bool
unfolding at_quote
looking_at_multiline cs = starts_triple cs || triple_there (at_quote cs)

abbrev is_there : Option Text → Bool
is_there none = false
is_there (some cs) = true

unfoldable pub looking_at_quoted : Text → Bool
unfolding at_quote
looking_at_quoted cs = starts_quote cs || is_there (at_quote cs)

-- A dot that a delimiter, a quote or the end follows.
unfoldable pub is_dot : Text → Bool
is_dot [] = false
is_dot (c ∷ []) = c == b'.'
is_dot (c ∷ d ∷ _) = c == b'.' && (is_delimiter d || d == 34)

-- prefix.lower() == "r"
abbrev pub is_raw : Text → Bool
is_raw (c ∷ []) = c == b'r' || c == b'R'
is_raw _ = false

abbrev pub quoted_kind : Text → AtomKind
quoted_kind [] = quoted
quoted_kind (c ∷ cs) = if is_raw (c ∷ cs) then raw_quoted else tagged_quoted

abbrev pub multiline_kind : Text → AtomKind
multiline_kind [] = multiline
multiline_kind (c ∷ cs) = if is_raw (c ∷ cs) then raw_multiline else tagged_multiline
