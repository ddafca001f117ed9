-- ===== src/Tests/Lexing.antt =====
-- Runs of the two lexers, and the witnesses of their theorems. Identifiers are of ASCII letters here.
use kclvm.Prelude.{
  ℕ, Bool, true, false, ◌||◌, List, [], ◌∷◌, ◌++◌, Option, none, some, Text, codes, ◌≡◌, ◌≢◌, refl,
  arith, ◌==◌, inl, inr, ltb, ◌&&◌,
}
use kclvm.Lexer.Cursor.{
  len_utf8, str_len, new_cursor, peek, peek1th, len_consumed, bump, drop_while, eat_while,
}
use kclvm.Lexer.Number.{is_decimal_digit}
use kclvm.Lexer.Scan.{
  is_whitespace, eat_comment, try_string_magic, or_eq, delimiter, operator, is_wide_emoji,
  try_ident_magic, eat_ident, token_kind, token, first_token,
}
use kclvm.Parser.Lexer.Indent.{
  cmp_ℕ, cmp, last_indent, unindent, indent_by, lex_indent, lex_indent_context,
}
use kclvm.Parser.Lexer.Loop.{
  appended, is_eof_token, open_dedents, eof, turn_at, turn, token_loop, into_tokens,
  parse_token_streams,
}
use kclvm.Parser.Lexer.Skips.{skipped}
use kclvm.Parser.Lexer.State.{
  drop_bytes, take_bytes, slice, src_index, str_from_to, str_from, span_error, new_lexer,
}
use kclvm.Parser.Lexer.Streams.{clean}
use kclvm.Parser.Lexer.Symbols.{open_token, close_token, lex_token}
use kclvm.Lexer.Kind
use kclvm.Lexer.Scan
use kclvm.Lexer.Scan.{tokenize}
use kclvm.Lexer.Pieces.{Pieces, tokenize-Pieces}
use kclvm.Lexer.StringLiterals.{Body, closed_literal, token-Body}
use kclvm.Lexer.Number.{between}
use kclvm.Parser.Token.{Token, TokenKind, DelimToken}
use kclvm.Parser.Lexer.State.{Lexer}
use kclvm.Parser.Lexer.Run.{returned, out_of_fuel}
use kclvm.Parser.Lexer.Nesting.{bracket_step, indent_step, run_check}
use kclvm.Parser.Lexer.SymbolsFrame.{opened}
use kclvm.Parser.Lexer.Strings.{str_content_eval}
use kclvm.Parser.Lexer.ScalarValues.{Scalars, IfSome}
use kclvm.Parser.Lexer.ScalarStrings.{str_content_eval-Scalars}
use kclvm.Parser.Lexer.AsciiSlices.{Ascii}
use kclvm.Parser.Lexer.NoPanic.{parse_token_streams-Returns}
use kclvm.Parser.Lexer.Balanced.{
  parse_token_streams-ends, parse_token_streams-brackets, parse_token_streams-indents,
}

abbrev ascii_start : ℕ → Bool
ascii_start c = between b'a' b'z' c || between b'A' b'Z' c || c == b'_'

abbrev ascii_continue : ℕ → Bool
ascii_continue c = ascii_start c || between b'0' b'9' c

abbrev no_emoji : ℕ → Bool
no_emoji c = false

abbrev no_name : Text → Option ℕ
no_name s = none

abbrev block_src : Text
block_src = codes "a:\n (b\nc"

abbrev at : TokenKind → ℕ → ℕ → Token
at kind lo hi = record { kind = kind; lo = lo; hi = hi }

abbrev block_tokens : List Token
block_tokens =
    at (TokenKind.ident (codes "a")) 0 1
    ∷ at TokenKind.colon 1 2
    ∷ at TokenKind.newline 2 3
    ∷ at TokenKind.indent 4 4
    ∷ at (TokenKind.open_delim DelimToken.paren) 4 5
    ∷ at (TokenKind.ident (codes "b")) 5 6
    ∷ at TokenKind.newline 6 7
    ∷ at TokenKind.dedent 7 7
    ∷ at (TokenKind.ident (codes "c")) 7 8
    ∷ at TokenKind.newline 8 8
    ∷ at TokenKind.eof 8 8
    ∷ []

abbrev block_end : Lexer
block_end = record {
  start_pos = 0;
  pos = 8;
  src = block_src;
  new_line_beginning = false;
  delims = TokenKind.open_delim DelimToken.paren ∷ [];
  tabs = 0;
  spaces = 0;
  indents = record { tabs = 0; spaces = 0 } ∷ [];
  errors = [];
}

block_run :
    parse_token_streams ascii_start ascii_continue no_emoji no_name block_src 0
    ≡ returned (block_tokens, block_end)
unfolding len_utf8 str_len new_cursor peek peek1th len_consumed bump drop_while eat_while
    is_decimal_digit is_whitespace eat_comment try_string_magic or_eq delimiter operator
    is_wide_emoji try_ident_magic eat_ident token_kind token first_token cmp_ℕ cmp last_indent
    unindent indent_by lex_indent lex_indent_context appended is_eof_token open_dedents eof turn_at
    turn token_loop into_tokens parse_token_streams skipped drop_bytes take_bytes slice src_index
    str_from_to str_from span_error new_lexer clean open_token close_token lex_token
block_run = refl

block_clean : clean ascii_start ascii_continue no_emoji block_src ≡ true
unfolding len_utf8 str_len new_cursor peek peek1th len_consumed bump drop_while eat_while
    is_decimal_digit is_whitespace eat_comment try_string_magic or_eq delimiter operator
    is_wide_emoji try_ident_magic eat_ident token_kind token first_token skipped clean
block_clean = refl

parse_token_streams-ends_example :
    parse_token_streams ascii_start ascii_continue no_emoji no_name block_src 0 ≢ out_of_fuel
parse_token_streams-ends_example =
    parse_token_streams-ends ascii_start ascii_continue no_emoji no_name block_src 0

parse_token_streams-brackets_example :
    run_check bracket_step [] block_tokens ≡ some (opened block_end.delims)
parse_token_streams-brackets_example =
    parse_token_streams-brackets ascii_start ascii_continue no_emoji no_name block_src 0
      block_tokens block_end block_run

parse_token_streams-indents_example : run_check indent_step 0 block_tokens ≡ some 0
parse_token_streams-indents_example =
    parse_token_streams-indents ascii_start ascii_continue no_emoji no_name block_src 0 block_tokens
      block_end block_clean block_run

tokenize-Pieces_example :
    (ts : List Kind.Token) × (tokenize ascii_start ascii_continue no_emoji block_src ≡ some ts)
    × Pieces ts block_src
tokenize-Pieces_example = tokenize-Pieces ascii_start ascii_continue no_emoji block_src

-- The body of a string that holds an escaped quote.
abbrev said : Text
said = b'a' ∷ b'\\' ∷ b'"' ∷ b'b' ∷ []

said-Body : Body b'"' said
said-Body =
    Body.plain (omega arith) (omega arith) refl
      (Body.escaped (inr refl) (Body.plain (omega arith) (omega arith) refl Body.empty))

token-Body_example :
    Scan.token ascii_start ascii_continue no_emoji (new_cursor (b'"' ∷ said ++ b'"' ∷ codes " + c"))
    ≡ (
      closed_literal b'"' said,
      record { initial_len = str_len (b'"' ∷ said ++ b'"' ∷ codes " + c"); chars = codes " + c" },
    )
token-Body_example =
    token-Body ascii_start ascii_continue no_emoji b'"' said (codes " + c") (inr refl) said-Body tt

str_content_eval-Scalars_example :
    (value : Option Text) × (str_content_eval no_name b'"' false false false (codes "a\\777")
      ≡ returned value)
    × IfSome Scalars value
str_content_eval-Scalars_example =
    str_content_eval-Scalars no_name (λ s. tt) b'"' (inl (omega arith)) false false false
      (codes "a\\777")
      (
        inl (omega arith),
        (inl (omega arith), (inl (omega arith), (inl (omega arith), (inl (omega arith), tt)))),
      )

-- A minus that ends the text, after a raw string and a number with a prefix.
abbrev last_minus : Text
last_minus = codes "(r'a\\' + 0x1f]-"

abbrev all_ascii : Text → Bool
all_ascii [] = true
all_ascii (c ∷ s) = ltb c 128 && all_ascii s

all_ascii-Ascii : (s : Text) → all_ascii s ≡ true → Ascii s
all_ascii-Ascii [] h = tt
all_ascii-Ascii (c ∷ s) h = (ground (arith, h), all_ascii-Ascii s (ground (arith, h)))

parse_token_streams-Returns_example :
    (r : List Token × Lexer) × (parse_token_streams ascii_start ascii_continue no_emoji no_name
        last_minus 5
      ≡ returned r)
parse_token_streams-Returns_example =
    parse_token_streams-Returns ascii_start ascii_continue no_emoji no_name (λ s. tt) last_minus 5
      (all_ascii-Ascii last_minus refl)
