-- ===== src/Parser/Lexer/Escapes.antt =====
-- kclvm/parser/src/lexer/string.rs: the characters that escapes give, by their digits or by name. What
-- character has a Unicode name is decided by another crate. Each returns what is left of the text.
use kclvm.Prelude.{
  ℕ, zero, suc, ◌+◌, ◌-◌, ◌*◌, ◌^◌, ◌%◌, ◌||◌, [], ◌∷◌, Option, none, some, Text, if◌then◌else◌,
  ◌==◌, ltb, ◌>>=◌,
}
use kclvm.Lexer.Number.{between}

-- `char::to_digit`.
unfoldable pub digit_value : ℕ → Option ℕ
digit_value c =
    if between b'0' b'9' c
    then some (c - b'0')
    else if between b'a' b'z' c
    then some (c - b'a' + 10)
    else if between b'A' b'Z' c
    then some (c - b'A' + 10)
    else none

abbrev below : ℕ → Option ℕ → Option ℕ
below base (some d) = if ltb d base then some d else none
below base none = none

unfoldable pub to_digit : ℕ → ℕ → Option ℕ
to_digit base c = below base (digit_value c)

-- `char::from_u32`.
unfoldable pub from_u32 : ℕ → Option ℕ
from_u32 p = if between 0xd800 0xdfff p || ltb 0x10ffff p then none else some p

-- `d << k`, and `+=`, on `u32`.
unfoldable pub shl_u32 : ℕ → ℕ → ℕ
shl_u32 d k = (d * 2 ^ k) % 2 ^ 32

unfoldable pub add_u32 : ℕ → ℕ → ℕ
add_u32 p d = (p + d) % 2 ^ 32

-- The loop of `unicode_literal`, with the number of digits that are left.
unfoldable pub hex_digits : ℕ → ℕ → Text → Option (ℕ × Text)
hex_digits zero p s = some (p, s)
hex_digits (suc k) p [] = none
hex_digits (suc k) p (c ∷ s) = to_digit 16 c >>= λ d. hex_digits k (add_u32 p (shl_u32 d (k * 4))) s

abbrev pub replacement_character : ℕ
replacement_character = 0xfffd

unfoldable pub char_of : ℕ → Option ℕ
char_of p = if between 0xd800 0xdfff p then some replacement_character else from_u32 p

unfoldable pub unicode_literal : ℕ → Text → Option (ℕ × Text)
unicode_literal literal_number s = do
  r ← hex_digits literal_number 0 s
  c ← char_of r.0
  some (c, r.1)

-- The octal digits that `parse_octet` reads after the first, at most so many: the character that ends
-- them is read too.
unfoldable pub octal_digits : ℕ → Text → Text × Text
octal_digits zero s = ([], s)
octal_digits (suc k) [] = ([], [])
octal_digits (suc k) (c ∷ s) =
    let rest = octal_digits k s in if between b'0' b'7' c then (c ∷ rest.0, rest.1) else ([], s)

-- `u32::from_str_radix` in base 8, on octal digits.
unfoldable pub octal_value : ℕ → Text → ℕ
octal_value v [] = v
octal_value v (c ∷ s) = octal_value (v * 8 + (c - b'0')) s

-- `none` is the panic of `unwrap`.
unfoldable pub parse_octet : ℕ → Text → Option ℕ × Text
parse_octet first s = let r = octal_digits 2 s in (from_u32 (octal_value 0 (first ∷ r.0)), r.1)

-- A name, up to its closing brace.
unfoldable pub name_loop : Text → Option (Text × Text)
name_loop [] = none
name_loop (c ∷ s) =
    let rest = name_loop s in if c == b'}' then some ([], s) else rest >>= λ r. some (c ∷ r.0, r.1)

unfoldable pub parse_unicode_name : (Text → Option ℕ) → Text → Option (ℕ × Text)
parse_unicode_name character [] = none
parse_unicode_name character (c ∷ s) =
    if c == b'{' then (name_loop s >>= λ r. character r.0 >>= λ x. some (x, r.1)) else none
