-- ===== src/Parser/Lexer.antt =====
-- kclvm/parser/src/lexer.
pub mod Run
pub mod State
pub mod Indent
pub mod Escapes
pub mod Strings
pub mod Literal
pub mod Symbols
pub mod Loop
pub mod Slices
pub mod AsciiSlices
pub mod EscapesLeft
pub mod StringsEnd
pub mod LiteralFrame
pub mod Nesting
pub mod SymbolsFrame
pub mod Drops
pub mod IndentFrame
pub mod Skips
pub mod Turns
pub mod Streams
pub mod Balanced
pub mod ScalarValues
pub mod ScalarStrings
pub mod StringsWorks
pub mod LiteralWorks
pub mod SymbolsWorks
pub mod TurnsWorks
pub mod NoPanic
