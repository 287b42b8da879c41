-- ===== src/Cst/Parser/Tokens.antt =====
-- A token that the parser takes is a part of the text, and is not empty.
use mathlib.Core.List.{append_assoc}
use qy.Prelude.{
  ℕ, ◌<◌, ◌≡◌, ◌∙◌, refl, ap, inl, inr, false, Option, none, some, [], ◌∷◌, ◌++◌, arith, length,
  length-append, Bool-cases,
}
use qy.Cst.Tree.{Text, AtomKind}
use qy.Cst.Lexer.{
  Cursor, is_raw, scan_bare, scan_prefix, scan_string, scan_multiline, quoted_kind, multiline_kind,
  looking_at_multiline, looking_at_quoted,
}
use qy.Cst.Pieces.{
  joined, trivia_joined, bare_joined, prefix_joined, string_joined, multiline_joined,
}
use qy.Cst.Parser.{
  Problem, unterminated_string, unterminated_multiline, Lexed, token, broken, hangs, bare_token,
  lex_bare, close, string_token, multiline_token, lex_atom, consume_trivia, bump,
}

-- A token of a text.
abbrev pub IsPiece : Lexed → Text → Type 0
IsPiece (token kind text rest) cs = (text ++ rest ≡ cs) × (0 < length text)
IsPiece (broken problem consumed) cs = Unit
IsPiece hangs cs = Unit

bare-IsPiece : (cs : Text) → IsPiece (lex_bare cs) cs
unfolding lex_bare
bare-IsPiece cs = go (scan_bare cs) (bare_joined cs)
  where
    go : (r : Text × Text) → joined r ≡ cs → IsPiece (bare_token r) cs
    go ([], rest) h = tt
    go (c ∷ t, rest) h = (h, omega arith)

close-IsPiece :
    (problem : Problem) (kind : AtomKind) (start body cs : Text) (o : Option (Text × Text))
    → 0 < length start
    → start ++ body ≡ cs
    → ((r : Text × Text) → o ≡ some r → joined r ≡ body)
    → IsPiece (close problem kind start body o) cs
unfolding close
close-IsPiece problem kind start body cs none p h j = tt
close-IsPiece problem kind start body cs (some r) p h j = (
  append_assoc start r.0 r.1 ∙ ap (λ (t : Text). start ++ t) (j r refl) ∙ h,
  omega (arith, length-append start r.0),
)

string-IsPiece : (cs : Text) (r : Text × Text) → joined r ≡ cs → IsPiece (string_token r) cs
unfolding string_token
string-IsPiece cs (prefix, []) h = tt
string-IsPiece cs (prefix, q ∷ body) h =
    close-IsPiece unterminated_string (quoted_kind prefix) (prefix ++ (q ∷ [])) body cs
      (scan_string (is_raw prefix) body) (omega (arith, length-append prefix (q ∷ [])))
      (append_assoc prefix (q ∷ []) body ∙ h) (string_joined (is_raw prefix) body)

multiline-IsPiece : (cs : Text) (r : Text × Text) → joined r ≡ cs → IsPiece (multiline_token r) cs
unfolding multiline_token
multiline-IsPiece cs (prefix, []) h = tt
multiline-IsPiece cs (prefix, a ∷ []) h = tt
multiline-IsPiece cs (prefix, a ∷ b ∷ []) h = tt
multiline-IsPiece cs (prefix, a ∷ b ∷ c ∷ body) h =
    close-IsPiece unterminated_multiline (multiline_kind prefix) (prefix ++ (a ∷ b ∷ c ∷ [])) body
      cs (scan_multiline body) (omega (arith, length-append prefix (a ∷ b ∷ c ∷ [])))
      (append_assoc prefix (a ∷ b ∷ c ∷ []) body ∙ h) (multiline_joined body)

pub lex_atom-IsPiece : (cs : Text) → IsPiece (lex_atom cs) cs
unfolding lex_atom
lex_atom-IsPiece cs = elim (Bool-cases (looking_at_multiline cs)) [
  | inl e ↦ rw e (multiline-IsPiece cs (scan_prefix cs) (prefix_joined cs))
  | inr e ↦ rw e (elim (Bool-cases (looking_at_quoted cs)) [
    | inl q ↦ rw q (string-IsPiece cs (scan_prefix cs) (prefix_joined cs))
    | inr q ↦ rw q (bare-IsPiece cs)
  ])
]

pub lex_atom-token :
    (cs : Text) (kind : AtomKind) (text rest : Text)
    → lex_atom cs ≡ token kind text rest
    → (text ++ rest ≡ cs) × (0 < length text)
lex_atom-token cs kind text rest e = rw e at (lex_atom-IsPiece cs)

pub consume_trivia-joined :
    (cur : Cursor) → (consume_trivia cur).0 ++ (consume_trivia cur).1.rest ≡ cur.rest
unfolding consume_trivia
consume_trivia-joined cur = trivia_joined false cur.rest

pub bump-cons : (cur : Cursor) (c : ℕ) (cs : Text) → cur.rest ≡ c ∷ cs → (bump cur).rest ≡ cs
unfolding bump
bump-cons cur c cs e = rw (e, bump)
