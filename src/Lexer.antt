-- ===== src/Lexer.antt =====
-- kclvm/lexer: the low-level lexer, from text to tokens. A character is its code point.
pub mod Kind
pub mod Cursor
pub mod Number
pub mod Quoted
pub mod Scan
pub mod Eats
pub mod EatsNumber
pub mod Reads
pub mod Pieces
pub mod StringLiterals
pub mod LiteralLength
pub mod Exact
pub mod ExactStrings
pub mod FirstToken
