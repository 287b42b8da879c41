-- ===== src/Examples/Cst.antt =====
-- Runs of the CST parser, and the theorems about it at concrete texts.
use qy.Prelude.{ℕ, ◌≡◌, ◌≢◌, refl, [], ◌∷◌}
use qy.Cst.Tree.{
  Text, bare, Span, Node, atom, list, Nodes, end, node, no_tail, a_tail, Program, collect_text,
}
use qy.Cst.Lexer.{Cursor}
use qy.Cst.Parser.{Result, parsed, failed, out_of_fuel, expected_form, parse_cst, at_start}
use qy.Cst.Parser.Grammar.{
  reads_atom, reads_list, no_forms, one_form, tailed, no_top, one_top, ReadsProgram, reads_program,
}
use qy.Cst.Parser.Roundtrip.{parse_cst-collect_text}
use qy.Cst.Parser.Ends.{parse_cst-ends}

-- (a . b)
abbrev dotted_pair : Text
dotted_pair = b'(' ∷ b'a' ∷ 32 ∷ b'.' ∷ 32 ∷ b'b' ∷ b')' ∷ []

abbrev columns : ℕ → ℕ → Span
columns a b = record { start_line = 1; start_column = a; end_line = 1; end_column = b }

abbrev dotted_program : Program
dotted_program = record {
  children =
      node
        (list (node (atom bare (b'a' ∷ []) (columns 2 3) []) end) (columns 1 8) [] (32 ∷ [])
          (a_tail (atom bare (b'b' ∷ []) (columns 6 7) (32 ∷ []))) [])
        end;
  trailing_trivia = [];
  span = columns 1 8;
}

-- The cursor at a column of the line.
abbrev at : ℕ → Text → Cursor
at column rest = record { rest = rest; line = 1; column = column }

dotted_program-Reads : ReadsProgram dotted_pair dotted_program
unfolding qy.Cst.Parser.parse_cst qy.Cst.Parser.consume_trivia qy.Cst.Parser.at_end
    qy.Cst.Parser.ahead qy.Cst.Parser.lex_atom qy.Cst.Parser.no_form qy.Cst.Parser.bump
    qy.Cst.Lexer.moved_line qy.Cst.Lexer.moved_column qy.Cst.Lexer.make_span
dotted_program-Reads =
    let read_a =
      reads_atom {cur = at 2 (b'a' ∷ 32 ∷ b'.' ∷ 32 ∷ b'b' ∷ b')' ∷ [])} (refl, refl) refl refl
        refl in
    let read_b = reads_atom {cur = at 6 (b'b' ∷ b')' ∷ [])} (refl, refl) refl refl refl in
    let forms =
      one_form {cur = at 2 (b'a' ∷ 32 ∷ b'.' ∷ 32 ∷ b'b' ∷ b')' ∷ [])} refl refl read_a no_forms in
    let tail =
      tailed {cur = at 3 (32 ∷ b'.' ∷ 32 ∷ b'b' ∷ b')' ∷ [])} refl refl refl refl refl read_b in
    let pair =
      reads_list {cur = at 1 (b'(' ∷ b'a' ∷ 32 ∷ b'.' ∷ 32 ∷ b'b' ∷ b')' ∷ [])} refl refl forms tail
        refl refl refl refl in
    reads_program
      (one_top {cur = at 1 (b'(' ∷ b'a' ∷ 32 ∷ b'.' ∷ 32 ∷ b'b' ∷ b')' ∷ [])} refl refl pair no_top)
      refl refl refl

parse_cst-collect_text_example :
    ((cur : Cursor) × (parse_cst dotted_pair ≡ parsed dotted_program cur))
    × (collect_text dotted_program ≡ dotted_pair)
parse_cst-collect_text_example = parse_cst-collect_text dotted_program-Reads

parse_cst-ends_example : parse_cst dotted_pair ≢ out_of_fuel
parse_cst-ends_example = parse_cst-ends dotted_pair

abbrev text_of : Result Program → Text
text_of (parsed p cur) = collect_text p
text_of (failed problem span) = []
text_of out_of_fuel = []

-- A form behind the dotted tail is taken as a child, and its text moves in front of the dot:
-- (a . b c) comes back as (a c . b).
moved_tail :
    text_of (parse_cst (b'(' ∷ b'a' ∷ 32 ∷ b'.' ∷ 32 ∷ b'b' ∷ 32 ∷ b'c' ∷ b')' ∷ []))
    ≡ b'(' ∷ b'a' ∷ 32 ∷ b'c' ∷ 32 ∷ b'.' ∷ 32 ∷ b'b' ∷ b')' ∷ []
unfolding parse_cst collect_text qy.Cst.Parser.parse_nodes qy.Cst.Parser.consume_trivia
    qy.Cst.Parser.parse_node qy.Cst.Parser.ahead qy.Cst.Parser.no_form qy.Cst.Parser.bump
    qy.Cst.Tree.nodes_text qy.Cst.Tree.snoc qy.Cst.Parser.close_list
moved_tail = refl

-- A second dot drops the first tail: (a . b . c) comes back as (a . c).
dropped_tail :
    text_of (parse_cst (b'(' ∷ b'a' ∷ 32 ∷ b'.' ∷ 32 ∷ b'b' ∷ 32 ∷ b'.' ∷ 32 ∷ b'c' ∷ b')' ∷ []))
    ≡ b'(' ∷ b'a' ∷ 32 ∷ b'.' ∷ 32 ∷ b'c' ∷ b')' ∷ []
unfolding parse_cst collect_text qy.Cst.Parser.parse_nodes qy.Cst.Parser.consume_trivia
    qy.Cst.Parser.parse_node qy.Cst.Parser.ahead qy.Cst.Parser.no_form qy.Cst.Parser.bump
    qy.Cst.Tree.nodes_text qy.Cst.Tree.snoc qy.Cst.Parser.close_list
dropped_tail = refl
