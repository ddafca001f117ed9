-- ===== src/Parser/Lexer/Literal.antt =====
-- kclvm/parser/src/lexer/mod.rs: literals. Positions count bytes of a text below 4 GiB; a difference of
-- positions that is negative panics.
use kclvm.Prelude.{
  ℕ, ◌+◌, ◌-◌, Bool, true, false, not, ◌&&◌, ◌||◌, [], ◌∷◌, ◌++◌, Option, none, some, Text, codes,
  if◌then◌else◌, ◌==◌, ltb, show_ℕ,
}
use kclvm.Lexer.Kind.{Base, LiteralKind, describe}
use kclvm.Lexer.Cursor.{len_utf8}
use kclvm.Parser.Token.{Lit, LitKind, is_suffix_name}
use kclvm.Parser.Lexer.Run.{Run, returned, panicked, ◌>>=◌}
use kclvm.Parser.Lexer.State.{Lexer, span_error, char_from, str_from, str_from_to}
use kclvm.Parser.Lexer.Escapes.{to_digit}
use kclvm.Parser.Lexer.Strings.{str_content_eval}

unfoldable pub sub_pos : ℕ → ℕ → Run ℕ
sub_pos a b = if ltb a b then panicked else returned (a - b)

abbrev pub radix : Base → Option ℕ
radix Base.binary = some 2
radix Base.octal = some 8
radix Base.hexadecimal = some 16
radix Base.decimal = none

abbrev is_digit_of : ℕ → ℕ → Bool
is_digit_of base c = elim (to_digit base c) [ some d ↦ true | none ↦ false ]

-- The first character that is not a digit of the base nor an underscore: its offset and its bytes.
unfoldable pub bad_digit : ℕ → ℕ → Text → Option (ℕ × ℕ)
bad_digit base idx [] = none
bad_digit base idx (c ∷ s) =
    let rest = bad_digit base (idx + len_utf8 c) s in
    if not (c == b'_') && not (is_digit_of base c) then some (idx, len_utf8 c) else rest

unfoldable pub digit_msg : ℕ → ℕ → ℕ → Text
digit_msg base lo hi =
    codes "invalid digit for a base "
    ++ show_ℕ base
    ++ codes " literal, start: "
    ++ show_ℕ lo
    ++ codes ", stop: "
    ++ show_ℕ hi

-- Whether the digits are valid: a bad one is an error.
abbrev pub report_digit : ℕ → ℕ → Option (ℕ × ℕ) → Lexer → Bool × Lexer
report_digit base content_start none lx = (true, lx)
report_digit base content_start (some (idx, len)) lx =
    let lo = content_start + (2 + idx) in
    let hi = content_start + (2 + idx + len) in
    (false, span_error (digit_msg base lo hi) lo lx.pos lx)

abbrev pub validate_in : Option ℕ → ℕ → ℕ → Lexer → Run (Bool × Lexer)
validate_in none content_start content_end lx = returned (true, lx)
validate_in (some base) content_start content_end lx =
    str_from_to lx (content_start + 2) content_end >>= λ s.
    returned (report_digit base content_start (bad_digit base 0 s) lx)

unfoldable pub validate_literal_int : Base → ℕ → ℕ → Lexer → Run (Bool × Lexer)
validate_literal_int base content_start content_end lx =
    validate_in (radix base) content_start content_end lx

abbrev not_supported : Base → Text
not_supported base = describe base ++ codes " float literal is not supported"

unfoldable pub validate_literal_float : Base → ℕ → Bool → Lexer → Bool × Lexer
validate_literal_float base start true lx =
    (false, span_error (codes "expected at least one digit in exponent") start lx.pos lx)
validate_literal_float Base.decimal start false lx = (true, lx)
validate_literal_float base start false lx =
    (false, span_error (not_supported base) start lx.pos lx)

abbrev lit : LitKind → Text → Option Text → Option Text → Lit
lit kind symbol suffix raw = record { kind = kind; symbol = symbol; suffix = suffix; raw = raw }

-- Whether a string that starts with this character is raw, where its quote stands, and its quote.
abbrev pub quote_of : Lexer → ℕ → ℕ → Run (Bool × ℕ × ℕ)
quote_of lx start c =
    if c == b'r' || c == b'R'
    then (char_from lx (start + 1) >>= λ q. returned (true, start + 1, q))
    else returned (false, start, c)

abbrev pub quote_offset : Bool → Bool → ℕ
quote_offset triple is_raw = if triple then (if is_raw then 4 else 3) else if is_raw then 2 else 1

abbrev pub invalid_string : ℕ → Lexer → Lexer
invalid_string content_start lx = span_error (codes "invalid string syntax") content_start lx.pos lx

-- The value of the content, or an error and no text.
abbrev pub value_or_error : ℕ → Lexer → Option Text → Text × Lexer
value_or_error content_start lx (some v) = (v, lx)
value_or_error content_start lx none = ([], invalid_string content_start lx)

-- The end of the content, from where it ends if it is closed and not raw.
abbrev pub content_end_of : Bool → Bool → Bool → ℕ → ℕ
content_end_of terminated triple is_raw end =
    end + (if is_raw then 1 else 0) + (if terminated then 0 else if triple then 3 else 1)

module _ (character : Text → Option ℕ) where
  -- The value of a string whose content stands between two positions.
  unfoldable pub string_value : ℕ → Bool → Bool → ℕ → ℕ → Lexer → Run (Text × Lexer)
  string_value quote_char triple is_raw content_start content_end lx =
      if ltb content_end content_start
      then returned ([], invalid_string content_start lx)
      else (str_from_to lx content_start content_end >>= λ content.
          str_content_eval character quote_char triple false is_raw content >>= λ v.
          returned (value_or_error content_start lx v))

  unfoldable pub lex_string : ℕ → ℕ → Bool → Bool → Lexer → Run (Lit × Lexer)
  lex_string start suffix_start terminated triple lx = do
    start_char ← char_from lx start
    (is_raw, quote_char_pos, quote_char) ← quote_of lx start start_char
    let lx1 =
        if not terminated
        then span_error (codes "unterminated string") quote_char_pos lx.pos lx
        else lx
    let offset = quote_offset triple is_raw
    end ← sub_pos suffix_start offset
    (value, lx2) ←
        string_value quote_char triple is_raw (start + offset)
          (content_end_of terminated triple is_raw end) lx1
    raw ← str_from_to lx2 start suffix_start
    returned (lit (LitKind.str triple is_raw) value none (some raw), lx2)

abbrev pub checked_symbol : Bool → Lexer → ℕ → ℕ → Run Text
checked_symbol ok lx start suffix_start =
    if ok then str_from_to lx start suffix_start else returned (codes "0")

-- The suffix of an integer; one that is not a name is an error.
unfoldable pub int_suffix : ℕ → ℕ → Lexer → Run (Option Text × Lexer)
int_suffix start suffix_start lx =
    if ltb suffix_start lx.pos
    then (str_from lx suffix_start >>= λ s.
        if not (is_suffix_name s)
        then returned (none, span_error (codes "invalid int binary suffix") start lx.pos lx)
        else returned (some s, lx))
    else returned (none, lx)

unfoldable pub lex_int : Base → Bool → ℕ → ℕ → Lexer → Run (Lit × Lexer)
lex_int base true start suffix_start lx = returned (
  lit LitKind.integer (codes "0") none none,
  span_error (codes "no valid digits found for number") start lx.pos lx,
)
lex_int base false start suffix_start lx = do
  (ok, lx1) ← validate_literal_int base start suffix_start lx
  symbol ← checked_symbol ok lx1 start suffix_start
  (suffix, lx2) ← int_suffix start suffix_start lx1
  returned (lit LitKind.integer symbol suffix none, lx2)

unfoldable pub lex_float : Base → Bool → ℕ → ℕ → Lexer → Run (Lit × Lexer)
lex_float base empty_exponent start suffix_start lx = do
  let (ok, lx1) = validate_literal_float base start empty_exponent lx
  symbol ← checked_symbol ok lx1 start suffix_start
  returned (lit LitKind.float symbol none none, lx1)

unfoldable pub lex_literal : (Text → Option ℕ) → ℕ → ℕ → LiteralKind → Lexer → Run (Lit × Lexer)
lex_literal character start suffix_start (LiteralKind.str_literal terminated triple) lx =
    lex_string character start suffix_start terminated triple lx
lex_literal character start suffix_start (LiteralKind.int_literal base empty_int) lx =
    lex_int base empty_int start suffix_start lx
lex_literal character start suffix_start (LiteralKind.float_literal base empty_exponent) lx =
    lex_float base empty_exponent start suffix_start lx
lex_literal character start suffix_start (LiteralKind.bool_literal terminated) lx =
    str_from_to lx start suffix_start >>= λ symbol. returned (lit LitKind.bool symbol none none, lx)
