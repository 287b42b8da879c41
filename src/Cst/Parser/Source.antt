-- ===== src/Cst/Parser/Source.antt =====
-- What the grammar reads is the text of what it gives: `collect_text` gives the source back.
use mathlib.Core.List.{append_assoc, append-nil}
use qy.Prelude.{ℕ, ◌≡◌, ◌∙◌, refl, sym, ap, true, [], ◌∷◌, ◌++◌, arith}
use qy.Cst.Tree.{Text, Node, Nodes, Tail, Program, node_text, nodes_text, tail_text, collect_text}
use qy.Cst.Lexer.{Cursor, advance, is_dot}
use qy.Cst.Parser.{close_paren, dot, ahead, bump, at_end}
use qy.Cst.Parser.Tokens.{lex_atom-token, consume_trivia-joined, bump-cons}
use qy.Cst.Parser.Grammar.{
  Skips, Reads, reads_atom, reads_list, ReadsForms, no_forms, one_form, ReadsTail, untailed, tailed,
  ReadsTop, no_top, one_top, ReadsProgram, reads_program,
}

pub Skips-joined :
    (cur : Cursor) (t : Text) (cur' : Cursor) → Skips cur t cur' → t ++ cur'.rest ≡ cur.rest
Skips-joined cur t cur' e =
    ap (λ (r : Text × Cursor). r.0 ++ r.1.rest) (sym e) ∙ consume_trivia-joined cur

-- A list's text, with what follows it, bracketed to the right.
list_text :
    (lead a b c r : Text)
    → (lead ++ (b'(' ∷ (a ++ (b ++ (c ++ (b')' ∷ [])))))) ++ r
      ≡ lead ++ (b'(' ∷ (a ++ (b ++ (c ++ (b')' ∷ r)))))
list_text lead a b c r = simp append_assoc

tail_text_lem : (dt n r : Text) → (dt ++ (b'.' ∷ n)) ++ r ≡ dt ++ (b'.' ∷ (n ++ r))
tail_text_lem dt n r = simp append_assoc

pub ahead-close : (cs : Text) → ahead cs ≡ close_paren → (ds : Text) × (cs ≡ b')' ∷ ds)
unfolding ahead
ahead-close [] h = cc
ahead-close (c ∷ cs) h = (cs, ground arith)

dot_cases : (c : ℕ) (cs : Text) → is_dot (c ∷ cs) ≡ true → c ≡ b'.'
unfolding is_dot
dot_cases c [] h = ground arith
dot_cases c (d ∷ cs) h = ground arith

pub ahead-dot : (cs : Text) → ahead cs ≡ dot → (ds : Text) × (cs ≡ b'.' ∷ ds)
unfolding ahead
ahead-dot [] h = cc
ahead-dot (c ∷ cs) h = (cs, ground (arith, dot_cases c cs))

-- What a closed list leaves.
closed :
    (behind closing cur' : Cursor) (ct : Text)
    → Skips behind ct closing
    → ahead closing.rest ≡ close_paren
    → cur' ≡ bump closing
    → ct ++ (b')' ∷ cur'.rest) ≡ behind.rest
closed behind closing cur' ct sk ah ec =
    let (ds, e) = ahead-close closing.rest ah in
    ap (λ (r : Text). ct ++ (b')' ∷ r))
      (ap (λ (c : Cursor). c.rest) ec ∙ bump-cons closing b')' ds e)
    ∙ ap (λ (r : Text). ct ++ r) (sym e)
    ∙ Skips-joined behind ct closing sk

mutual
  unfolding node_text advance

  -- The text of a node is what was read.
  Reads-text :
      {cur cur' : Cursor} {lead : Text} {n : Node}
      → Reads cur lead n cur'
      → node_text n ++ cur'.rest ≡ lead ++ cur.rest
  Reads-text (reads_atom {cur} {cur'} {lead} {text} {rest} {kind} np e ec es) =
      append_assoc lead text cur'.rest
      ∙ ap (λ (t : Text). lead ++ (text ++ t)) (ap (λ (c : Cursor). c.rest) ec)
      ∙ ap (λ (t : Text). lead ++ t) (lex_atom-token cur.rest kind text rest e).0
  Reads-text
        (reads_list {cur} {opened} {forms} {behind} {closing} {cur'} {lead} {dt} {ct} {cs} {ns} {t}
          e eo fs tl sk ah ec es) =
      list_text lead (nodes_text ns) (tail_text dt t) ct cur'.rest
      ∙ ap (λ (r : Text). lead ++ (b'(' ∷ (nodes_text ns ++ (tail_text dt t ++ r))))
          (closed behind closing cur' ct sk ah ec)
      ∙ ap (λ (r : Text). lead ++ (b'(' ∷ (nodes_text ns ++ r))) (ReadsTail-text tl)
      ∙ ap (λ (r : Text). lead ++ (b'(' ∷ r)) (ReadsForms-text fs ∙ ap (λ (c : Cursor). c.rest) eo)
      ∙ ap (λ (r : Text). lead ++ r) (sym e)

  ReadsForms-text :
      {cur cur' : Cursor} {ns : Nodes}
      → ReadsForms cur ns cur'
      → nodes_text ns ++ cur'.rest ≡ cur.rest
  ReadsForms-text no_forms = refl
  ReadsForms-text (one_form {cur} {skipped} {after} {cur'} {lead} {n} {ns} sk ah r fs) =
      append_assoc (node_text n) (nodes_text ns) cur'.rest
      ∙ ap (λ (t : Text). node_text n ++ t) (ReadsForms-text fs)
      ∙ Reads-text r
      ∙ Skips-joined cur lead skipped sk

  ReadsTail-text :
      {cur cur' : Cursor} {dt : Text} {t : Tail}
      → ReadsTail cur dt t cur'
      → tail_text dt t ++ cur'.rest ≡ cur.rest
  ReadsTail-text untailed = refl
  ReadsTail-text
        (tailed {cur} {at_dot} {dotted} {skipped} {cur'} {dt} {lead} {n} sk ah ed sk' nf r) =
      let (ds, e) = ahead-dot at_dot.rest ah in
      tail_text_lem dt (node_text n) cur'.rest
      ∙ ap (λ (t : Text). dt ++ (b'.' ∷ t))
          (Reads-text r
            ∙ Skips-joined dotted lead skipped sk'
            ∙ ap (λ (c : Cursor). c.rest) ed
            ∙ bump-cons at_dot b'.' ds e)
      ∙ ap (λ (t : Text). dt ++ t) (sym e)
      ∙ Skips-joined cur dt at_dot sk

ReadsTop-text :
    {cur cur' : Cursor} {ns : Nodes} → ReadsTop cur ns cur' → nodes_text ns ++ cur'.rest ≡ cur.rest
unfolding node_text
ReadsTop-text no_top = refl
ReadsTop-text (one_top {cur} {skipped} {after} {cur'} {lead} {n} {ns} sk ah r fs) =
    append_assoc (node_text n) (nodes_text ns) cur'.rest
    ∙ ap (λ (t : Text). node_text n ++ t) (ReadsTop-text fs)
    ∙ Reads-text r
    ∙ Skips-joined cur lead skipped sk

at_end_nil : (cs : Text) → at_end cs ≡ true → cs ≡ []
unfolding at_end
at_end_nil [] h = refl
at_end_nil (c ∷ cs) h = cc

-- The text of a program is its source.
pub ReadsProgram-collect_text :
    {source : Text} {p : Program} → ReadsProgram source p → collect_text p ≡ source
unfolding collect_text
ReadsProgram-collect_text (reads_program {source} {cur} {last} {ns} {t} top sk ae es) =
    ap (λ (r : Text). nodes_text ns ++ r)
      (sym (append-nil t)
        ∙ ap (λ (r : Text). t ++ r) (sym (at_end_nil last.rest ae))
        ∙ Skips-joined cur t last sk)
    ∙ ReadsTop-text top
