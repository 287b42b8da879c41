-- ===== src/Cst/Tree.antt =====
-- qy/frontend/cst.py: the tree and `collect_text`. A text is the list of its code points.
use qy.Prelude.{ℕ, List, [], ◌∷◌, ◌++◌}

abbrev pub Text : Type 0
Text = List ℕ

pub data AtomKind : Type 0 where
  bare quoted raw_quoted tagged_quoted multiline raw_multiline tagged_multiline : AtomKind

-- SourceSpan without the source's name.
pub record Span : Type 0 where
  pub start_line : ℕ
  pub start_column : ℕ
  pub end_line : ℕ
  pub end_column : ℕ

-- `atom kind text span leading_trivia` and
-- `list children span leading_trivia dot_trivia tail close_trivia`.
mutual
  pub data Node : Type 0 where
    atom : AtomKind → Text → Span → Text → Node
    list : Nodes → Span → Text → Text → Tail → Text → Node

  pub data Nodes : Type 0 where
    end : Nodes
    node : Node → Nodes → Nodes

  pub data Tail : Type 0 where
    no_tail : Tail
    a_tail : Node → Tail

pub record Program : Type 0 where
  pub children : Nodes
  pub trailing_trivia : Text
  pub span : Span

-- _collect_node. The parts are joined where the source appends them to a list.
unfoldable mutual
  pub node_text : Node → Text
  node_text (atom kind text span lt) = lt ++ text
  node_text (list children span lt dt tail ct) =
      lt ++ (b'(' ∷ (nodes_text children ++ (tail_text dt tail ++ (ct ++ (b')' ∷ [])))))

  pub nodes_text : Nodes → Text
  nodes_text end = []
  nodes_text (node n ns) = node_text n ++ nodes_text ns

  pub tail_text : Text → Tail → Text
  tail_text dt no_tail = []
  tail_text dt (a_tail n) = dt ++ (b'.' ∷ node_text n)

unfoldable pub collect_text : Program → Text
collect_text p = nodes_text p.children ++ p.trailing_trivia

-- children.append(n)
unfoldable pub snoc : Nodes → Node → Nodes
snoc end n = node n end
snoc (node m ns) n = node m (snoc ns n)
