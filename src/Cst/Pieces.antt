-- ===== src/Cst/Pieces.antt =====
-- What a walk consumes and what it leaves make up the text that it walked over.
use qy.Prelude.{
  ℕ, ◌≡◌, refl, ap, inl, inr, Bool, true, false, not, ◌&&◌, Option, none, some, [], ◌∷◌, ◌++◌,
  arith, Bool-cases, ◌==◌,
}
use qy.Cst.Tree.{Text}
use qy.Cst.Lexer.{
  eat?, scan_trivia, scan_bare, scan_prefix, scan_string, scan_multiline, starts_triple,
}

abbrev pub joined : Text × Text → Text
joined r = r.0 ++ r.1

pub trivia_joined : (comment : Bool) (cs : Text) → joined (scan_trivia comment cs) ≡ cs
unfolding scan_trivia
trivia_joined comment [] = refl
trivia_joined comment (c ∷ cs) = ground (arith, trivia_joined true cs, trivia_joined false cs)

pub bare_joined : (cs : Text) → joined (scan_bare cs) ≡ cs
unfolding scan_bare
bare_joined [] = refl
bare_joined (c ∷ cs) = ground (arith, bare_joined cs)

pub prefix_joined : (cs : Text) → joined (scan_prefix cs) ≡ cs
unfolding scan_prefix
prefix_joined [] = refl
prefix_joined (c ∷ cs) = ground (arith, prefix_joined cs)

abbrev Joins : Option (Text × Text) → Text → Type 0
Joins none cs = Unit
Joins (some r) cs = joined r ≡ cs

Joins-eat : (c : ℕ) (o : Option (Text × Text)) (cs : Text) → Joins o cs → Joins (eat? c o) (c ∷ cs)
Joins-eat c none cs h = tt
Joins-eat c (some r) cs h = ap (λ (t : Text). c ∷ t) h

string-Joins : (raw : Bool) (cs : Text) → Joins (scan_string raw cs) cs
unfolding scan_string
string-Joins raw [] = tt
string-Joins raw (c ∷ []) = elim (Bool-cases (c == 34)) [ inl e ↦ rw e refl | inr e ↦ rw e tt ]
string-Joins raw (c ∷ d ∷ cs) = elim (Bool-cases (c == 92 && not raw)) [
  | inl e ↦ rw e (
      Joins-eat c (eat? d (scan_string raw cs)) (d ∷ cs)
        (Joins-eat d (scan_string raw cs) cs (string-Joins raw cs)))
  | inr e ↦ rw e (elim (Bool-cases (c == 34)) [
    | inl q ↦ rw q refl
    | inr q ↦ rw q (Joins-eat c (scan_string raw (d ∷ cs)) (d ∷ cs) (string-Joins raw (d ∷ cs)))
  ])
]

multiline-Joins : (cs : Text) → Joins (scan_multiline cs) cs
unfolding scan_multiline
multiline-Joins [] = tt
multiline-Joins (a ∷ []) = tt
multiline-Joins (a ∷ b ∷ []) = tt
multiline-Joins (a ∷ b ∷ c ∷ cs) = elim (Bool-cases (starts_triple (a ∷ b ∷ c ∷ cs))) [
  | inl e ↦ rw e refl
  | inr e ↦
      rw e (Joins-eat a (scan_multiline (b ∷ c ∷ cs)) (b ∷ c ∷ cs) (multiline-Joins (b ∷ c ∷ cs)))
]

pub string_joined :
    (raw : Bool) (cs : Text) (r : Text × Text) → scan_string raw cs ≡ some r → joined r ≡ cs
string_joined raw cs r e = rw e at (string-Joins raw cs)

pub multiline_joined : (cs : Text) (r : Text × Text) → scan_multiline cs ≡ some r → joined r ≡ cs
multiline_joined cs r e = rw e at (multiline-Joins cs)
