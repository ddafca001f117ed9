-- ===== src/Parser/Token.antt =====
-- kclvm/ast/src/token.rs: the tokens of the AST, and the suffixes of numbers of ast.rs.
use kclvm.Prelude.{
  ℕ, List, [], ◌∷◌, ◌++◌, Option, none, some, Text, codes, text_eq, Bool, false, any, if◌then◌else◌,
}

pub data CommentKind : Type 0 where
  line : Text → CommentKind

pub data UnaryOpToken : Type 0 where
  u_tilde u_not : UnaryOpToken

pub data BinOpToken : Type 0 where
  plus minus star slash percent star_star slash_slash caret and or shl shr : BinOpToken

pub data BinCmpToken : Type 0 where
  eq not_eq lt lt_eq gt gt_eq : BinCmpToken

pub data DelimToken : Type 0 where
  paren bracket brace no_delim : DelimToken

-- A string goes with whether it is long, and whether it is raw.
pub data LitKind : Type 0 where
  bool integer float : LitKind
  str : Bool → Bool → LitKind
  none_value undefined err : LitKind

pub record Lit : Type 0 where
  pub kind : LitKind
  pub symbol : Text
  pub suffix : Option Text
  pub raw : Option Text

pub data TokenKind : Type 0 where
  unary_op : UnaryOpToken → TokenKind
  bin_op bin_op_eq : BinOpToken → TokenKind
  bin_cmp : BinCmpToken → TokenKind
  at_sign dot dot_dot_dot comma colon r_arrow dollar question assign : TokenKind
  open_delim close_delim : DelimToken → TokenKind
  literal : Lit → TokenKind
  ident : Text → TokenKind
  doc_comment : CommentKind → TokenKind
  indent dedent newline dummy eof : TokenKind

-- A token goes with its span.
pub record Token : Type 0 where
  pub kind : TokenKind
  pub lo : ℕ
  pub hi : ℕ

unfoldable pub bin_op_text : BinOpToken → Text
bin_op_text BinOpToken.plus = codes "+"
bin_op_text BinOpToken.minus = codes "-"
bin_op_text BinOpToken.star = codes "*"
bin_op_text BinOpToken.slash = codes "/"
bin_op_text BinOpToken.percent = codes "%"
bin_op_text BinOpToken.star_star = codes "**"
bin_op_text BinOpToken.slash_slash = codes "//"
bin_op_text BinOpToken.caret = codes "^"
bin_op_text BinOpToken.and = codes "&"
bin_op_text BinOpToken.or = codes "|"
bin_op_text BinOpToken.shl = codes "<<"
bin_op_text BinOpToken.shr = codes ">>"

unfoldable pub bin_cmp_text : BinCmpToken → Text
bin_cmp_text BinCmpToken.eq = codes "=="
bin_cmp_text BinCmpToken.not_eq = codes "!="
bin_cmp_text BinCmpToken.lt = codes "<"
bin_cmp_text BinCmpToken.lt_eq = codes "<="
bin_cmp_text BinCmpToken.gt = codes ">"
bin_cmp_text BinCmpToken.gt_eq = codes ">="

unfoldable pub open_text : DelimToken → Text
open_text DelimToken.paren = codes "("
open_text DelimToken.bracket = codes "["
open_text DelimToken.brace = codes "{"
open_text DelimToken.no_delim = codes "open_no_delim"

unfoldable pub close_text : DelimToken → Text
close_text DelimToken.paren = codes ")"
close_text DelimToken.bracket = codes "]"
close_text DelimToken.brace = codes "}"
close_text DelimToken.no_delim = codes "close_no_delim"

unfoldable pub literal_text : LitKind → Text
literal_text LitKind.bool = codes "bool"
literal_text LitKind.integer = codes "integer"
literal_text LitKind.float = codes "float"
literal_text (LitKind.str is_long_string is_raw) = codes "string"
literal_text LitKind.none_value = codes "None"
literal_text LitKind.undefined = codes "Undefined"
literal_text LitKind.err = codes "err"

-- `String::from` of a kind of token.
unfoldable pub kind_text : TokenKind → Text
kind_text (TokenKind.unary_op UnaryOpToken.u_tilde) = codes "~"
kind_text (TokenKind.unary_op UnaryOpToken.u_not) = codes "not"
kind_text (TokenKind.bin_op op) = bin_op_text op
kind_text (TokenKind.bin_op_eq op) = bin_op_text op ++ codes "="
kind_text (TokenKind.bin_cmp cmp) = bin_cmp_text cmp
kind_text TokenKind.at_sign = codes "@"
kind_text TokenKind.dot = codes "."
kind_text TokenKind.dot_dot_dot = codes "..."
kind_text TokenKind.comma = codes ","
kind_text TokenKind.colon = codes ":"
kind_text TokenKind.r_arrow = codes "->"
kind_text TokenKind.dollar = codes "$"
kind_text TokenKind.question = codes "?"
kind_text TokenKind.assign = codes "="
kind_text (TokenKind.open_delim d) = open_text d
kind_text (TokenKind.close_delim d) = close_text d
kind_text (TokenKind.literal lit) = literal_text lit.kind
kind_text (TokenKind.ident name) = codes "identifier"
kind_text (TokenKind.doc_comment c) = codes "inline_comment"
kind_text TokenKind.indent = codes "indent"
kind_text TokenKind.dedent = codes "dedent"
kind_text TokenKind.newline = codes "newline"
kind_text TokenKind.dummy = codes "dummy"
kind_text TokenKind.eof = codes "eof"

abbrev with_suffix : Text → Option Text → Text
with_suffix sym (some suf) = sym ++ suf
with_suffix sym none = sym

-- `String::from` of a token, which shows a literal by its text.
unfoldable pub kind_or_symbol : TokenKind → Text
kind_or_symbol (TokenKind.literal lit) = with_suffix lit.symbol lit.suffix
kind_or_symbol kind = kind_text kind

unfoldable pub token_text : Token → Text
token_text t = kind_or_symbol t.kind

abbrev name_of : TokenKind → Option Text
name_of (TokenKind.ident name) = some name
name_of _ = none

-- `Token::ident` without its span, and `Token::is_keyword`.
unfoldable pub token_ident : Token → Option Text
token_ident t = name_of t.kind

unfoldable pub is_keyword : Text → Token → Bool
is_keyword kw t = elim (token_ident t) [ some name ↦ text_eq name kw | none ↦ false ]

-- `NumberBinarySuffix`.
pub data NumberBinarySuffix : Type 0 where
  small_n small_u small_m small_k big_k big_m big_g big_t big_p : NumberBinarySuffix
  ki mi gi ti pi : NumberBinarySuffix

unfoldable pub suffix_value : NumberBinarySuffix → Text
suffix_value NumberBinarySuffix.small_n = codes "n"
suffix_value NumberBinarySuffix.small_u = codes "u"
suffix_value NumberBinarySuffix.small_m = codes "m"
suffix_value NumberBinarySuffix.small_k = codes "k"
suffix_value NumberBinarySuffix.big_k = codes "K"
suffix_value NumberBinarySuffix.big_m = codes "M"
suffix_value NumberBinarySuffix.big_g = codes "G"
suffix_value NumberBinarySuffix.big_t = codes "T"
suffix_value NumberBinarySuffix.big_p = codes "P"
suffix_value NumberBinarySuffix.ki = codes "Ki"
suffix_value NumberBinarySuffix.mi = codes "Mi"
suffix_value NumberBinarySuffix.gi = codes "Gi"
suffix_value NumberBinarySuffix.ti = codes "Ti"
suffix_value NumberBinarySuffix.pi = codes "Pi"

-- `NumberBinarySuffix::try_from`, whose only error is that the text is not a suffix.
unfoldable pub try_suffix : Text → Option NumberBinarySuffix
try_suffix s =
    if text_eq s (codes "n")
    then some NumberBinarySuffix.small_n
    else if text_eq s (codes "u")
    then some NumberBinarySuffix.small_u
    else if text_eq s (codes "m")
    then some NumberBinarySuffix.small_m
    else if text_eq s (codes "k")
    then some NumberBinarySuffix.small_k
    else if text_eq s (codes "K")
    then some NumberBinarySuffix.big_k
    else if text_eq s (codes "M")
    then some NumberBinarySuffix.big_m
    else if text_eq s (codes "G")
    then some NumberBinarySuffix.big_g
    else if text_eq s (codes "T")
    then some NumberBinarySuffix.big_t
    else if text_eq s (codes "P")
    then some NumberBinarySuffix.big_p
    else if text_eq s (codes "Ki")
    then some NumberBinarySuffix.ki
    else if text_eq s (codes "Mi")
    then some NumberBinarySuffix.mi
    else if text_eq s (codes "Gi")
    then some NumberBinarySuffix.gi
    else if text_eq s (codes "Ti")
    then some NumberBinarySuffix.ti
    else if text_eq s (codes "Pi")
    then some NumberBinarySuffix.pi
    else none

unfoldable pub all_names : List Text
all_names =
    codes "n"
    ∷ codes "u"
    ∷ codes "m"
    ∷ codes "k"
    ∷ codes "K"
    ∷ codes "M"
    ∷ codes "G"
    ∷ codes "T"
    ∷ codes "P"
    ∷ codes "Ki"
    ∷ codes "Mi"
    ∷ codes "Gi"
    ∷ codes "Ti"
    ∷ codes "Pi"
    ∷ codes "i"
    ∷ []

-- The names that the lexer takes.
unfoldable pub is_suffix_name : Text → Bool
is_suffix_name s = any (λ name. text_eq name s) all_names
