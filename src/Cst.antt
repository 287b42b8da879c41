-- ===== src/Cst.antt =====
-- qy/frontend/cst.py and qy/frontend/cst_parser.py: the concrete syntax tree, its text, and the
-- parser that keeps whitespace and comments.
pub mod Tree
pub mod Lexer
pub mod Pieces
pub mod Parser
