-- ===== src/Cst/Parser/Roundtrip.antt =====
-- What the grammar reads, the parser parses, and its text is the source.
use qy.Prelude.{ℕ, suc, ◌+◌, ◌*◌, ◌≤◌, ◌≡◌, ◌∙◌, sym, ap, subst, true, false, arith}
use qy.Cst.Tree.{Text, Span, Node, Nodes, end, Program, snoc, collect_text}
use qy.Cst.Lexer.{Cursor, make_span}
use qy.Cst.Parser.{
  consume_trivia, at_end, at_start, Result, parsed, ◌>>=◌, parse_node, parse_nodes, parse_cst,
  enough_fuel,
}
use qy.Cst.Parser.Grammar.{Skips, ReadsTop, no_top, one_top, ReadsProgram, reads_program}
use qy.Cst.Parser.Turns.{left, Skips-le, join, join-end, join-snoc, spare}
use qy.Cst.Parser.Source.{ReadsProgram-collect_text}
use qy.Cst.Parser.Complete.{Reads-lt, Reads-parse_node}

-- One turn of the loop over a program.
module _ (fuel : ℕ) (start cur : Cursor) (ms : Nodes) where
  see-form :
      at_end (consume_trivia cur).1.rest ≡ false
      → parse_nodes (suc fuel) start ms cur ≡ (
          parse_node fuel (consume_trivia cur).0 (consume_trivia cur).1 >>= λ n cur'.
          parse_nodes fuel start (snoc ms n) cur')
  unfolding parse_nodes
  see-form ae = rw (ae, parse_nodes)

  see-end :
      at_end (consume_trivia cur).1.rest ≡ true
      → parse_nodes (suc fuel) start ms cur
        ≡ parsed
            (record {
              children = ms;
              trailing_trivia = (consume_trivia cur).0;
              span = make_span start (consume_trivia cur).1;
            })
            (consume_trivia cur).1
  unfolding parse_nodes
  see-end ae = rw (ae, parse_nodes)

  turn-top :
      (t : Text) (here : Cursor)
      → Skips cur t here
      → at_end here.rest ≡ false
      → parse_nodes (suc fuel) start ms cur
        ≡ (parse_node fuel t here >>= λ n cur'. parse_nodes fuel start (snoc ms n) cur')
  turn-top t here sk =
      subst
        (λ (r : Text × Cursor).
          at_end r.1.rest ≡ false
          → parse_nodes (suc fuel) start ms cur
            ≡ (parse_node fuel r.0 r.1 >>= λ n cur'. parse_nodes fuel start (snoc ms n) cur'))
        sk see-form

  turn-end :
      (t : Text) (here : Cursor)
      → Skips cur t here
      → at_end here.rest ≡ true
      → parse_nodes (suc fuel) start ms cur
        ≡ parsed (record { children = ms; trailing_trivia = t; span = make_span start here }) here
  turn-end t here sk =
      subst
        (λ (r : Text × Cursor).
          at_end r.1.rest ≡ true
          → parse_nodes (suc fuel) start ms cur
            ≡ parsed (record { children = ms; trailing_trivia = r.0; span = make_span start r.1 })
                r.1)
        sk see-end

-- The loop over a program, where its forms end.
ReadsTop-parse_nodes :
    {cur cur' : Cursor} {ns : Nodes} (fuel : ℕ) (start : Cursor) (ms : Nodes)
    → ReadsTop cur ns cur'
    → (t : Text) (last : Cursor) → Skips cur' t last
    → at_end last.rest ≡ true
    → 2 * left cur + 2 ≤ fuel
    → parse_nodes fuel start ms cur
      ≡ parsed
          (record { children = join ms ns; trailing_trivia = t; span = make_span start last })
          last
ReadsTop-parse_nodes {cur} fuel start ms no_top t last sk ae h =
    let (k, ek) = spare 0 fuel (omega arith) in
    ap (λ (x : ℕ). parse_nodes x start ms cur) ek
    ∙ turn-end k start cur ms t last sk ae
    ∙ ap
        (λ (x : Nodes).
          parsed (record { children = x; trailing_trivia = t; span = make_span start last }) last)
        (sym (join-end ms))
ReadsTop-parse_nodes fuel start ms
      (one_top {cur} {skipped} {after} {cur'} {lead} {n} {ns} sk ah r fs) t last sk' ae h =
    let (k, ek) = spare 0 fuel (omega arith) in
    let le = Skips-le cur lead skipped sk in
    let now = Reads-parse_node k r (omega arith) in
    let lt = Reads-lt r in
    ap (λ (x : ℕ). parse_nodes x start ms cur) ek
    ∙ turn-top k start cur ms lead skipped sk ah
    ∙ ap (λ (x : Result Node). x >>= λ n cur'. parse_nodes k start (snoc ms n) cur') now
    ∙ ReadsTop-parse_nodes k start (snoc ms n) fs t last sk' ae (omega arith)
    ∙ ap
        (λ (x : Nodes).
          parsed (record { children = x; trailing_trivia = t; span = make_span start last }) last)
        (join-snoc ms n ns)

-- Every program of the grammar, in which a list has at most one dot and nothing behind the form
-- after it, is parsed to the tree that the grammar gives, spans and trivia included, and the
-- text of that tree is the source, character for character.
pub parse_cst-collect_text :
    {source : Text} {p : Program}
    → ReadsProgram source p
    → ((cur : Cursor) × (parse_cst source ≡ parsed p cur)) × (collect_text p ≡ source)
unfolding parse_cst
parse_cst-collect_text (reads_program {source} {cur} {last} {ns} {t} top sk ae es) = (
  (
    last,
    ReadsTop-parse_nodes (enough_fuel source) (at_start source) end top t last sk ae (omega arith)
        ∙ ap (λ (x : Span). parsed (record { children = ns; trailing_trivia = t; span = x }) last)
            (sym es),
  ),
  ReadsProgram-collect_text (reads_program top sk ae es),
)
