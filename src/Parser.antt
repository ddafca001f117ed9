-- ===== src/Parser.antt =====
-- kclvm/parser: the lexer that makes the tokens of the AST from those of kclvm/lexer.
pub mod Token
pub mod Lexer
