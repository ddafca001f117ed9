-- ===== src/Lexer/Number.antt =====
-- kclvm/lexer/src/number.rs: numbers. The first digit has been eaten.
use kclvm.Prelude.{ℕ, Bool, true, false, not, ◌&&◌, ◌||◌, [], ◌∷◌, Text, if◌then◌else◌, ◌==◌, leb}
use kclvm.Lexer.Kind.{Base, LiteralKind}
use kclvm.Lexer.Cursor.{Cursor, peek, peek1th, bump}

abbrev pub between : ℕ → ℕ → ℕ → Bool
between lo hi c = leb lo c && leb c hi

unfoldable pub is_decimal_digit : ℕ → Bool
is_decimal_digit c = between b'0' b'9' c

unfoldable pub is_hexadecimal_digit : ℕ → Bool
is_hexadecimal_digit c = between b'0' b'9' c || between b'a' b'f' c || between b'A' b'F' c

-- The loops of `eat_decimal_digits` and `eat_hexadecimal_digits`: digits and underscores are eaten, and
-- whether a digit was met goes along.
unfoldable pub eat_digits : (ℕ → Bool) → Bool → Text → Bool × Text
eat_digits is_digit has_digits [] = (has_digits, [])
eat_digits is_digit has_digits (c ∷ s) =
    let rest = eat_digits is_digit (has_digits || not (c == b'_')) s in
    if c == b'_' || is_digit c then rest else (has_digits, c ∷ s)

unfoldable pub eat_decimal_digits : Cursor → Bool × Cursor
eat_decimal_digits c =
    let (has_digits, chars) = eat_digits is_decimal_digit false c.chars in
    (has_digits, record c { chars = chars })

unfoldable pub eat_hexadecimal_digits : Cursor → Bool × Cursor
eat_hexadecimal_digits c =
    let (has_digits, chars) = eat_digits is_hexadecimal_digit false c.chars in
    (has_digits, record c { chars = chars })

unfoldable pub eat_float_exponent : Cursor → Bool × Cursor
eat_float_exponent c = eat_decimal_digits (if peek c == b'-' || peek c == b'+' then bump c else c)

abbrev pub is_e : ℕ → Bool
is_e c = c == b'e' || c == b'E'

-- An exponent, whose `e` has been seen.
unfoldable pub float_exponent : Base → Cursor → LiteralKind × Cursor
float_exponent base c =
    let (has_digits, c') = eat_float_exponent (bump c) in
    (LiteralKind.float_literal base (not has_digits), c')

-- What follows the point of a float, which has been eaten.
unfoldable pub fraction : Base → Cursor → LiteralKind × Cursor
fraction base c =
    let (_, c') = eat_decimal_digits c in
    if is_decimal_digit (peek c)
    then (if is_e (peek c')
        then float_exponent base c'
        else (LiteralKind.float_literal base false, c'))
    else (LiteralKind.float_literal base false, c)

module _ (is_id_start : ℕ → Bool) where
  -- What follows the digits of the whole part.
  unfoldable pub after_digits : Base → Cursor → LiteralKind × Cursor
  after_digits base c =
      if peek c == b'.' && not (peek1th c == b'.') && not (is_id_start (peek1th c))
      then fraction base (bump c)
      else if is_e (peek c)
      then float_exponent base c
      else (LiteralKind.int_literal base false, c)

  -- A base prefix, or a number with digits: whether there were any, and what follows them.
  unfoldable pub with_prefix : Base → Bool × Cursor → LiteralKind × Cursor
  with_prefix base (has_digits, c) =
      if not has_digits then (LiteralKind.int_literal base true, c) else after_digits base c

  unfoldable pub number : ℕ → Cursor → LiteralKind × Cursor
  number first_digit c =
      if first_digit == b'0'
      then (if peek c == b'b'
          then with_prefix Base.binary (eat_decimal_digits (bump c))
          else if peek c == b'o' || is_decimal_digit (peek c)
          then with_prefix Base.octal (eat_decimal_digits (bump c))
          else if peek c == b'x'
          then with_prefix Base.hexadecimal (eat_hexadecimal_digits (bump c))
          else if peek c == b'_' || peek c == b'.' || is_e (peek c)
          then after_digits Base.decimal (eat_decimal_digits c).1
          else (LiteralKind.int_literal Base.decimal false, c))
      else after_digits Base.decimal (eat_decimal_digits c).1
