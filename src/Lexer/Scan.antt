-- ===== src/Lexer/Scan.antt =====
-- kclvm/lexer/src/lib.rs and kcl_cursor.rs: one token, and the tokens of a text. What characters start
-- and continue an identifier, and which are emoji, is decided by other crates.
use kclvm.Prelude.{
  ℕ, zero, suc, Bool, true, false, not, ◌&&◌, ◌||◌, List, [], ◌∷◌, Option, none, some, Text,
  if◌then◌else◌, ◌==◌, ltb, length, ◌>>=◌,
}
use kclvm.Lexer.Kind.{TokenKind, Token, DocStyle}
use kclvm.Lexer.Cursor.{
  Cursor, new_cursor, peek, peek1th, bump, is_eof, len_consumed, reset_len_consumed, eat_while,
  eof_char,
}
use kclvm.Lexer.Number.{number, is_decimal_digit}
use kclvm.Lexer.Quoted.{eat_quoted_string}

-- What a part of the lexer returns: a kind of token, and the cursor.
abbrev pub Lexed : Type 0
Lexed = TokenKind × Cursor

abbrev is_quote : ℕ → Bool
is_quote c = c == b'\'' || c == b'"'

abbrev is_raw_prefix : ℕ → Bool
is_raw_prefix c = c == b'r' || c == b'R'

unfoldable pub is_whitespace : ℕ → Bool
is_whitespace c =
    c == 0x0b
    || c == 0x0c
    || c == 0x0d
    || c == 0x85
    || c == 0x200e
    || c == 0x200f
    || c == 0x2028
    || c == 0x2029

abbrev pub try_comment_magic : ℕ → Bool
try_comment_magic c = c == b'#'

unfoldable pub eat_comment : Cursor → Lexed
eat_comment c =
    (TokenKind.line_comment (some DocStyle.inner_doc), eat_while (λ x. not (x == b'\n')) c)

unfoldable pub try_string_magic : ℕ → Cursor → Bool
try_string_magic x c = if is_raw_prefix x then is_quote (peek c) else is_quote x

unfoldable pub eat_string : ℕ → Cursor → Lexed
eat_string x c =
    if is_raw_prefix x
    then (if is_quote (peek c) then eat_quoted_string (peek c) (bump c) else (TokenKind.unknown, c))
    else if is_quote x
    then eat_quoted_string x c
    else (TokenKind.unknown, c)

-- A token of one character, or of two where an `=` follows.
unfoldable pub or_eq : TokenKind → TokenKind → Cursor → Lexed
or_eq with_eq alone c = if peek c == b'=' then (with_eq, bump c) else (alone, c)

-- An operator that may be doubled, and its double be followed by `=`.
unfoldable pub or_double : ℕ → TokenKind → TokenKind → TokenKind → TokenKind → Cursor → Lexed
or_double x double_eq double with_eq alone c =
    if peek c == x then or_eq double_eq double (bump c) else or_eq with_eq alone c

unfoldable pub dots : Cursor → Lexed
dots c =
    if peek c == b'.' && peek1th c == b'.'
    then (TokenKind.dot_dot_dot, bump (bump c))
    else (TokenKind.dot, c)

unfoldable pub backslash : Cursor → Lexed
backslash c =
    if peek c == b'\n'
    then (TokenKind.line_continue, bump c)
    else if peek c == eof_char
    then (TokenKind.line_continue, c)
    else (TokenKind.invalid_line_continue, c)

unfoldable pub delimiter : ℕ → Cursor → Lexed → Lexed
delimiter x c otherwise =
    if x == 0x09
    then (TokenKind.tab, c)
    else if x == 0x20
    then (TokenKind.space, c)
    else if x == 0x0a
    then (TokenKind.newline, c)
    else if x == b';'
    then (TokenKind.semi, c)
    else if x == b','
    then (TokenKind.comma, c)
    else if x == b'.'
    then dots c
    else if x == b'('
    then (TokenKind.open_paren, c)
    else if x == b')'
    then (TokenKind.close_paren, c)
    else if x == b'{'
    then (TokenKind.open_brace, c)
    else if x == b'}'
    then (TokenKind.close_brace, c)
    else if x == b'['
    then (TokenKind.open_bracket, c)
    else if x == b']'
    then (TokenKind.close_bracket, c)
    else if x == b'@'
    then (TokenKind.at_sign, c)
    else if x == b'#'
    then (TokenKind.pound, c)
    else if x == b'~'
    then (TokenKind.tilde, c)
    else if x == b'?'
    then (TokenKind.question, c)
    else if x == b':'
    then (TokenKind.colon, c)
    else if x == b'$'
    then (TokenKind.dollar, c)
    else otherwise

unfoldable pub operator : ℕ → Cursor → Lexed → Lexed
operator x c otherwise =
    if x == b'='
    then or_eq TokenKind.eq_eq TokenKind.eq c
    else if x == b'!'
    then or_eq TokenKind.bang_eq TokenKind.bang c
    else if x == b'<'
    then or_double b'<' TokenKind.lt_lt_eq TokenKind.lt_lt TokenKind.lt_eq TokenKind.lt c
    else if x == b'>'
    then or_double b'>' TokenKind.gt_gt_eq TokenKind.gt_gt TokenKind.gt_eq TokenKind.gt c
    else if x == b'-'
    then or_eq TokenKind.minus_eq TokenKind.minus c
    else if x == b'&'
    then or_eq TokenKind.and_eq TokenKind.and_sign c
    else if x == b'|'
    then or_eq TokenKind.or_eq TokenKind.or_sign c
    else if x == b'+'
    then or_eq TokenKind.plus_eq TokenKind.plus c
    else if x == b'*'
    then or_double b'*' TokenKind.star_star_eq TokenKind.star_star TokenKind.star_eq TokenKind.star
        c
    else if x == b'/'
    then or_double b'/' TokenKind.slash_slash_eq TokenKind.slash_slash TokenKind.slash_eq
        TokenKind.slash c
    else if x == b'^'
    then or_eq TokenKind.caret_eq TokenKind.caret c
    else if x == b'%'
    then or_eq TokenKind.percent_eq TokenKind.percent c
    else if x == b'\\'
    then backslash c
    else otherwise

module _ (is_id_start is_id_continue is_emoji : ℕ → Bool) where
  unfoldable pub is_wide_emoji : ℕ → Bool
  is_wide_emoji c = not (ltb c 128) && is_emoji c

  unfoldable pub fake_ident_or_unknown_prefix : Cursor → Lexed
  fake_ident_or_unknown_prefix c = (
    TokenKind.invalid_ident,
    eat_while (λ x. is_id_continue x || is_wide_emoji x || x == 0x200d) c,
  )

  unfoldable pub try_ident_magic : ℕ → Cursor → Bool
  try_ident_magic x c = if x == b'$' then is_id_start (peek c) else is_id_start x

  unfoldable pub eat_ident : Cursor → Lexed
  eat_ident c =
      let c' = eat_while is_id_continue c in
      if is_wide_emoji (peek c') then fake_ident_or_unknown_prefix c' else (TokenKind.ident, c')

  unfoldable pub eat_lit_suffix : Cursor → Cursor
  eat_lit_suffix c = if not (is_id_start (peek c)) then c else eat_while is_id_continue (bump c)

  unfoldable pub eat_number : ℕ → Cursor → Lexed
  eat_number x c =
      let (kind, c') = number is_id_start x c in
      (TokenKind.literal kind (len_consumed c'), eat_lit_suffix c')

  -- The match of `token` on the first character, which has been eaten.
  unfoldable pub token_kind : ℕ → Cursor → Lexed
  token_kind x c =
      if try_comment_magic x
      then eat_comment c
      else if is_whitespace x
      then (TokenKind.whitespace, c)
      else if try_string_magic x c
      then eat_string x c
      else if try_ident_magic x c
      then eat_ident c
      else if is_decimal_digit x
      then eat_number x c
      else delimiter x c (
          operator x c
            (if is_wide_emoji x then fake_ident_or_unknown_prefix c else (TokenKind.unknown, c)))

  unfoldable pub token : Cursor → Token × Cursor
  token c =
      let (kind, c') = token_kind (peek c) (bump c) in
      (record { kind = kind; len = len_consumed c' }, c')

  unfoldable pub first_token : Text → Token
  first_token input = (token (new_cursor input)).0

  -- The tokens that the iterator of `tokenize` produces; `none` is that the fuel ran out, which starts
  -- with the number of characters.
  unfoldable pub tokenize_fuel : ℕ → Cursor → Option (List Token)
  tokenize_fuel zero c = none
  tokenize_fuel (suc n) c = elim (is_eof c) [
    | true ↦ some []
    | false ↦ do
      let next = token (reset_len_consumed c)
      ts ← tokenize_fuel n next.1
      some (next.0 ∷ ts)
  ]

  unfoldable pub tokenize : Text → Option (List Token)
  tokenize input = tokenize_fuel (suc (length input)) (new_cursor input)
