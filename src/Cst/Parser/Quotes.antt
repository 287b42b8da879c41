-- ===== src/Cst/Parser/Quotes.antt =====
-- The walks over characters end: no prefix is without its quote.
use qy.Prelude.{
  ℕ, ◌≡◌, refl, inl, inr, true, false, Option, none, some, [], ◌∷◌, ◌++◌, arith, Bool-cases, ◌==◌,
}
use qy.Cst.Tree.{Text, AtomKind}
use qy.Cst.Lexer.{
  scan_prefix, scan_bare, scan_string, scan_multiline, starts_triple, starts_quote, at_quote,
  looking_at_multiline, looking_at_quoted, is_delimiter, is_raw, quoted_kind, multiline_kind,
}
use qy.Cst.Parser.{
  Problem, Lexed, token, broken, hangs, bare_token, lex_bare, close, string_token, multiline_token,
  lex_atom,
}

abbrev pub IsDone : Lexed → Type 0
IsDone (token kind text rest) = Unit
IsDone (broken problem consumed) = Unit
IsDone hangs = ⊥

abbrev NonEmpty : Text → Type 0
NonEmpty [] = ⊥
NonEmpty (c ∷ cs) = Unit

bare-IsDone : (cs : Text) → IsDone (lex_bare cs)
unfolding lex_bare
bare-IsDone cs = go (scan_bare cs)
  where
    go : (r : Text × Text) → IsDone (bare_token r)
    go ([], rest) = tt
    go (c ∷ t, rest) = tt

close-IsDone :
    (problem : Problem) (kind : AtomKind) (start body : Text) (o : Option (Text × Text))
    → IsDone (close problem kind start body o)
unfolding close
close-IsDone problem kind start body none = tt
close-IsDone problem kind start body (some r) = tt

string-IsDone : (r : Text × Text) → NonEmpty r.1 → IsDone (string_token r)
unfolding string_token
string-IsDone (prefix, []) h = absurd h
string-IsDone (prefix, q ∷ body) h =
    close-IsDone _ (quoted_kind prefix) (prefix ++ (q ∷ [])) body (scan_string (is_raw prefix) body)

multiline-IsDone : (r : Text × Text) → NonEmpty r.1 → IsDone (multiline_token r)
unfolding multiline_token
multiline-IsDone (prefix, []) h = absurd h
multiline-IsDone (prefix, a ∷ []) h = tt
multiline-IsDone (prefix, a ∷ b ∷ []) h = tt
multiline-IsDone (prefix, a ∷ b ∷ c ∷ body) h =
    close-IsDone _ (multiline_kind prefix) (prefix ++ (a ∷ b ∷ c ∷ [])) body (scan_multiline body)

-- A quote ends the prefix.
quote-NonEmpty : (c : ℕ) (cs : Text) → c == 34 ≡ true → NonEmpty (scan_prefix (c ∷ cs)).1
unfolding scan_prefix
quote-NonEmpty c cs e = rw e tt

step-NonEmpty :
    (c : ℕ) (cs : Text) → NonEmpty (scan_prefix cs).1 → NonEmpty (scan_prefix (c ∷ cs)).1
unfolding scan_prefix
step-NonEmpty c cs h = elim (Bool-cases (c == 34)) [ inl e ↦ rw e tt | inr e ↦ rw e h ]

found-NonEmpty : (cs qs : Text) → at_quote cs ≡ some qs → NonEmpty (scan_prefix cs).1
unfolding at_quote
found-NonEmpty [] qs e = cc
found-NonEmpty (c ∷ cs) qs e = elim (Bool-cases (is_delimiter c)) [
  | inl d ↦ let h = rw d at e in absurd cc
  | inr d ↦ elim (Bool-cases (c == 34)) [
    | inl q ↦ quote-NonEmpty c cs q
    | inr q ↦ step-NonEmpty c cs (found-NonEmpty cs qs (rw (d, q) at e))
  ]
]

triple_first : (cs : Text) → starts_triple cs ≡ true → NonEmpty (scan_prefix cs).1
triple_first [] e = cc
triple_first (a ∷ []) e = cc
triple_first (a ∷ b ∷ []) e = cc
triple_first (a ∷ b ∷ c ∷ cs) e = quote-NonEmpty a (b ∷ c ∷ cs) (ground arith)

quote_first : (cs : Text) → starts_quote cs ≡ true → NonEmpty (scan_prefix cs).1
quote_first [] e = cc
quote_first (c ∷ cs) e = quote-NonEmpty c cs e

quoted_first : (cs : Text) → looking_at_quoted cs ≡ true → NonEmpty (scan_prefix cs).1
unfolding looking_at_quoted
quoted_first cs e = elim (Bool-cases (starts_quote cs)) [
  | inl q ↦ quote_first cs q
  | inr q ↦ there (at_quote cs) refl (rw q at e)
]
  where
    there :
        (o : Option Text)
        → at_quote cs ≡ o
        → (elim o [ none ↦ false | some _ ↦ true ]) ≡ true
        → NonEmpty (scan_prefix cs).1
    there none e h = cc
    there (some qs) e h = found-NonEmpty cs qs e

multiline_first : (cs : Text) → looking_at_multiline cs ≡ true → NonEmpty (scan_prefix cs).1
unfolding looking_at_multiline
multiline_first cs e = elim (Bool-cases (starts_triple cs)) [
  | inl q ↦ triple_first cs q
  | inr q ↦ there (at_quote cs) refl (rw q at e)
]
  where
    there :
        (o : Option Text)
        → at_quote cs ≡ o
        → (elim o [ none ↦ false | some qs ↦ starts_triple qs ]) ≡ true
        → NonEmpty (scan_prefix cs).1
    there none e h = cc
    there (some qs) e h = found-NonEmpty cs qs e

pub lex_atom-IsDone : (cs : Text) → IsDone (lex_atom cs)
unfolding lex_atom
lex_atom-IsDone cs = elim (Bool-cases (looking_at_multiline cs)) [
  | inl e ↦ rw e (multiline-IsDone (scan_prefix cs) (multiline_first cs e))
  | inr e ↦ rw e (elim (Bool-cases (looking_at_quoted cs)) [
    | inl q ↦ rw q (string-IsDone (scan_prefix cs) (quoted_first cs q))
    | inr q ↦ rw q (bare-IsDone cs)
  ])
]
