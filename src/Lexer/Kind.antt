-- ===== src/Lexer/Kind.antt =====
-- kclvm/lexer/src/lib.rs: the tokens.
use kclvm.Prelude.{ℕ, Bool, Option, Text, codes}

pub data DocStyle : Type 0 where
  outer_doc inner_doc : DocStyle

pub data Base : Type 0 where
  binary octal hexadecimal decimal : Base

-- `Base::describe`.
unfoldable pub describe : Base → Text
describe Base.binary = codes "binary"
describe Base.octal = codes "octal"
describe Base.hexadecimal = codes "hexadecimal"
describe Base.decimal = codes "decimal"

-- An integer's flag is that it has no digits, a float's that its exponent has none, and those of a
-- string are that it is terminated and that it is triple quoted.
pub data LiteralKind : Type 0 where
  int_literal : Base → Bool → LiteralKind
  float_literal : Base → Bool → LiteralKind
  str_literal : Bool → Bool → LiteralKind
  bool_literal : Bool → LiteralKind

-- A literal goes with the place where its suffix starts.
pub data TokenKind : Type 0 where
  line_comment : Option DocStyle → TokenKind
  block_comment : Option DocStyle → Bool → TokenKind
  tab space carriage_return newline whitespace : TokenKind
  ident invalid_ident : TokenKind
  invalid_line_continue line_continue : TokenKind
  literal : LiteralKind → ℕ → TokenKind
  semi comma dot dot_dot dot_dot_dot : TokenKind
  open_paren close_paren open_brace close_brace open_bracket close_bracket : TokenKind
  at_sign pound tilde question colon dollar : TokenKind
  eq bang lt gt eq_eq bang_eq gt_eq lt_eq : TokenKind
  minus and_sign or_sign plus star slash caret percent : TokenKind
  star_star slash_slash lt_lt gt_gt : TokenKind
  plus_eq minus_eq star_eq slash_eq percent_eq and_eq or_eq caret_eq : TokenKind
  star_star_eq slash_slash_eq lt_lt_eq gt_gt_eq : TokenKind
  unknown : TokenKind

-- The length is in bytes.
pub record Token : Type 0 where
  pub kind : TokenKind
  pub len : ℕ
