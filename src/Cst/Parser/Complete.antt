-- ===== src/Cst/Parser/Complete.antt =====
-- A form that the grammar reads, the parser parses.
use qy.Prelude.{ℕ, ◌+◌, ◌*◌, ◌<◌, ◌≤◌, ◌≡◌, ◌∙◌, refl, sym, ap, [], arith, length}
use qy.Cst.Tree.{Text, AtomKind, Span, Node, atom, list, Nodes, end, Tail, no_tail, a_tail, snoc}
use qy.Cst.Lexer.{Cursor, advance, make_span}
use qy.Cst.Parser.{
  Lexed, consume_trivia, bump, Result, parsed, ◌>>=◌, atom_node, parse_atom, ListState, close_list,
  parse_node, parse_list,
}
use qy.Cst.Parser.Grammar.{
  Reads, reads_atom, reads_list, ReadsForms, no_forms, one_form, ReadsTail, untailed, tailed,
}
use qy.Cst.Parser.Turns.{
  left, Skips-le, bump-lt, token-lt, join, join-end, join-snoc, state, turn-close, turn-form,
  turn-dot, spare, node-list, node-atom,
}
use qy.Cst.Parser.Source.{ahead-close, ahead-dot}

mutual
  unfolding advance

  pub Reads-lt :
      {cur cur' : Cursor} {lead : Text} {n : Node} → Reads cur lead n cur' → left cur' < left cur
  Reads-lt (reads_atom {cur} {cur'} {lead} {text} {rest} {kind} np e ec es) =
      omega (arith, token-lt cur kind text rest e, ap (λ (c : Cursor). left c) ec)
  Reads-lt
        (reads_list {cur} {opened} {forms} {behind} {closing} {cur'} {lead} {dt} {ct} {cs} e eo fs
          tl sk ah ec es) =
      let (ds, ed) = ahead-close closing.rest ah in
      omega (
        arith,
        ap (λ (r : Text). length r) e,
        ap (λ (c : Cursor). left c) eo,
        ReadsForms-le fs,
        ReadsTail-le tl,
        Skips-le behind ct closing sk,
        ap (λ (c : Cursor). left c) ec,
        bump-lt closing b')' ds ed,
      )

  ReadsForms-le : {cur cur' : Cursor} {ns : Nodes} → ReadsForms cur ns cur' → left cur' ≤ left cur
  ReadsForms-le no_forms = omega arith
  ReadsForms-le (one_form {cur} {skipped} {after} {cur'} {lead} sk ah r fs) =
      omega (arith, Skips-le cur lead skipped sk, Reads-lt r, ReadsForms-le fs)

  ReadsTail-le :
      {cur cur' : Cursor} {dt : Text} {t : Tail} → ReadsTail cur dt t cur' → left cur' ≤ left cur
  ReadsTail-le untailed = omega arith
  ReadsTail-le (tailed {cur} {at_dot} {dotted} {skipped} {cur'} {dt} {lead} sk ah ed sk' nf r) =
      let (ds, e) = ahead-dot at_dot.rest ah in
      omega (
        arith,
        Skips-le cur dt at_dot sk,
        ap (λ (c : Cursor). left c) ed,
        bump-lt at_dot b'.' ds e,
        Skips-le dotted lead skipped sk',
        Reads-lt r,
      )

-- What the loop over a list has left, after it read some of it.
abbrev Goes : ℕ → ListState → Cursor → ListState → Cursor → Type 0
Goes fuel st cur st' cur' =
    (fuel' : ℕ) × (2 * left cur' + 1 ≤ fuel') × (parse_list fuel st cur ≡ parse_list fuel' st' cur')

same_atom :
    (kind : AtomKind) (text lead : Text) (cur there cur' : Cursor) {sp : Span}
    → cur' ≡ there
    → sp ≡ make_span cur cur'
    → parsed (atom kind text (make_span cur there) lead) there
      ≡ parsed (atom kind text sp lead) cur'
same_atom kind text lead cur there cur' ec es = cc

same_list :
    (ns : Nodes) (lead dt : Text) (t : Tail) (ct : Text) (cur there cur' : Cursor) {sp : Span}
    → cur' ≡ there
    → sp ≡ make_span cur cur'
    → parsed (list ns (make_span cur there) lead dt t ct) there
      ≡ parsed (list ns sp lead dt t ct) cur'
same_list ns lead dt t ct cur there cur' ec es = cc

mutual
  unfolding advance parse_atom close_list atom_node

  pub Reads-parse_node :
      {cur cur' : Cursor} {lead : Text} {n : Node} (fuel : ℕ)
      → Reads cur lead n cur'
      → 2 * left cur ≤ fuel
      → parse_node fuel lead cur ≡ parsed n cur'
  Reads-parse_node fuel (reads_atom {cur} {cur'} {lead} {text} {rest} {kind} np e ec es) h =
      let lt = token-lt cur kind text rest e in
      let (k, ek) = spare 0 fuel (omega arith) in
      ap (λ (x : ℕ). parse_node x lead cur) ek
      ∙ node-atom k lead cur np
      ∙ ap (λ (x : Lexed). atom_node lead cur x) e
      ∙ same_atom kind text lead cur (advance text rest cur) cur' ec es
  Reads-parse_node fuel
        (reads_list {cur} {opened} {forms} {behind} {closing} {cur'} {lead} {dt} {ct} {cs} {ns} {t}
          e eo fs tl sk ah ec es)
        h =
      let (ds, ed) = ahead-close closing.rest ah in
      let le = Skips-le behind ct closing sk in
      let re = ap (λ (r : Text). length r) e in
      let oe = ap (λ (c : Cursor). left c) eo in
      let (k, ek) = spare 0 fuel (omega arith) in
      let (f, hf, forms_done) = ReadsForms-Goes k cur lead end fs (omega arith) in
      let (g, hg, tail_done) = ReadsTail-Goes f cur lead ns tl hf in
      let (m, em) = spare (2 * left behind) g hg in
      ap (λ (x : ℕ). parse_node x lead cur) ek
      ∙ node-list k lead cur cs e
      ∙ ap (λ (x : Cursor). parse_list k (state cur lead end [] no_tail) x) (sym eo)
      ∙ forms_done
      ∙ tail_done
      ∙ ap (λ (x : ℕ). parse_list x (state cur lead ns dt t) behind) em
      ∙ turn-close m (state cur lead ns dt t) behind ct closing sk ah
      ∙ same_list ns lead dt t ct cur (bump closing) cur' ec es

  ReadsForms-Goes :
      {cur cur' : Cursor} {ns : Nodes} (fuel : ℕ) (start : Cursor) (front : Text) (ms : Nodes)
      → ReadsForms cur ns cur'
      → 2 * left cur + 1 ≤ fuel
      → Goes fuel
          (state start front ms [] no_tail)
          cur
          (state start front (join ms ns) [] no_tail)
          cur'
  ReadsForms-Goes {cur} fuel start front ms no_forms h = (
    fuel,
    h,
    ap (λ (x : Nodes). parse_list fuel (state start front x [] no_tail) cur) (sym (join-end ms)),
  )
  ReadsForms-Goes fuel start front ms
        (one_form {cur} {skipped} {after} {cur'} {lead} {n} {ns} sk ah r fs) h =
      let (k, ek) = spare (2 * left cur) fuel h in
      let le = Skips-le cur lead skipped sk in
      let now = Reads-parse_node k r (omega arith) in
      let lt = Reads-lt r in
      let (fuel', h', rest) = ReadsForms-Goes k start front (snoc ms n) fs (omega arith) in
      (
        fuel',
        h',
        ap (λ (x : ℕ). parse_list x (state start front ms [] no_tail) cur) ek
            ∙ turn-form k (state start front ms [] no_tail) cur lead skipped sk ah
            ∙ ap
                (λ (x : Result Node).
                  x >>= λ n cur'. parse_list k (state start front (snoc ms n) [] no_tail) cur')
                now
            ∙ rest
            ∙ ap (λ (x : Nodes). parse_list fuel' (state start front x [] no_tail) cur')
                (join-snoc ms n ns),
      )

  ReadsTail-Goes :
      {cur cur' : Cursor} {dt : Text} {t : Tail} (fuel : ℕ) (start : Cursor) (front : Text)
      (ns : Nodes)
      → ReadsTail cur dt t cur'
      → 2 * left cur + 1 ≤ fuel
      → Goes fuel (state start front ns [] no_tail) cur (state start front ns dt t) cur'
  ReadsTail-Goes fuel start front ns untailed h = (fuel, h, refl)
  ReadsTail-Goes fuel start front ns
        (tailed {cur} {at_dot} {dotted} {skipped} {cur'} {dt} {lead} {n} sk ah ed sk' nf r) h =
      let (k, ek) = spare (2 * left cur) fuel h in
      let (ds, e) = ahead-dot at_dot.rest ah in
      let le = Skips-le cur dt at_dot sk in
      let le' = Skips-le dotted lead skipped sk' in
      let bl = bump-lt at_dot b'.' ds e in
      let ed' = ap (λ (c : Cursor). left c) ed in
      let now = Reads-parse_node k r (omega arith) in
      let lt = Reads-lt r in
      (
        k,
        omega arith,
        ap (λ (x : ℕ). parse_list x (state start front ns [] no_tail) cur) ek
            ∙ turn-dot k (state start front ns [] no_tail) cur (dt, at_dot) (lead, skipped) sk
                (ap (λ (c : Cursor). consume_trivia c) (sym ed) ∙ sk') ah nf
            ∙ ap
                (λ (x : Result Node).
                  x >>= λ n cur'. parse_list k (state start front ns dt (a_tail n)) cur')
                now,
      )
