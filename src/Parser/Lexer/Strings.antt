-- ===== src/Parser/Lexer/Strings.antt =====
-- kclvm/parser/src/lexer/string.rs: the value of the content of a string.
use kclvm.Prelude.{
  ℕ, zero, suc, Bool, not, ◌&&◌, ◌||◌, [], ◌∷◌, ◌++◌, Option, none, some, Text, if◌then◌else◌, ◌==◌,
  ltb, length,
}
use kclvm.Lexer.Number.{between}
use kclvm.Parser.Lexer.Run.{Run, returned, out_of_fuel, or_panic, match_option, ◌>>=◌}
use kclvm.Parser.Lexer.Escapes.{unicode_literal, parse_octet, parse_unicode_name}

-- What an escape gives: the characters, and the text that is left; `none` is an error.
abbrev pub Escape : Type 0
Escape = Run (Option (Text × Text))

abbrev pub gives : Text → Text → Escape
gives value s = returned (some (value, s))

abbrev pub one_of : Option (ℕ × Text) → Escape
one_of (some (c, s)) = gives (c ∷ []) s
one_of none = returned none

module _ (character : Text → Option ℕ) (quote_char : ℕ) (is_bytes : Bool) where
  -- The escape of a character after a backslash, outside raw strings.
  unfoldable pub escape : ℕ → Text → Escape
  escape c s =
      if c == quote_char
      then gives (quote_char ∷ []) s
      else if c == b'\\'
      then gives (b'\\' ∷ []) s
      else if c == b'\''
      then gives (b'\'' ∷ []) s
      else if c == b'"'
      then gives (b'"' ∷ []) s
      else if c == b'\n'
      then gives [] s
      else if c == b'a'
      then gives (0x07 ∷ []) s
      else if c == b'b'
      then gives (0x08 ∷ []) s
      else if c == b'f'
      then gives (0x0c ∷ []) s
      else if c == b'n'
      then gives (b'\n' ∷ []) s
      else if c == b'r'
      then gives (b'\r' ∷ []) s
      else if c == b't'
      then gives (b'\t' ∷ []) s
      else if c == b'v'
      then gives (0x0b ∷ []) s
      else if between b'0' b'7' c
      then (or_panic (parse_octet c s).0 >>= λ x. gives (x ∷ []) (parse_octet c s).1)
      else if c == b'x'
      then one_of (unicode_literal 2 s)
      else if c == b'u' && not is_bytes
      then one_of (unicode_literal 4 s)
      else if c == b'U' && not is_bytes
      then one_of (unicode_literal 8 s)
      else if c == b'N' && not is_bytes
      then one_of (parse_unicode_name character s)
      else gives (b'\\' ∷ c ∷ []) s

  -- What follows a backslash.
  unfoldable pub after_backslash : Bool → Text → Escape
  after_backslash is_raw [] = returned none
  after_backslash is_raw (c ∷ s) = if is_raw then gives (b'\\' ∷ c ∷ []) s else escape c s

-- The characters of a turn before those of the turns that follow.
abbrev pub put : Text → Option Text → Option Text
put t (some rest) = some (t ++ rest)
put t none = none

module _ (character : Text → Option ℕ) (quote_char : ℕ) (triple_quoted is_bytes is_raw : Bool) where
  -- One turn of the loop, on the character that was read and the text that is left.
  unfoldable pub eval_char : ℕ → Text → Escape
  eval_char c s =
      if c == b'\\'
      then after_backslash character quote_char is_bytes is_raw s
      else if c == b'\n' && not triple_quoted || is_bytes && not (ltb c 128)
      then returned none
      else gives (c ∷ []) s

  unfoldable pub eval_loop : ℕ → Text → Run (Option Text)
  eval_loop zero s = out_of_fuel
  eval_loop (suc f) [] = returned (some [])
  eval_loop (suc f) (c ∷ s) = eval_char c s >>= λ e.
      match_option e (returned none) (λ p. eval_loop f p.1 >>= λ rest. returned (put p.0 rest))

  -- Each turn reads a character.
  unfoldable pub str_content_eval : Text → Run (Option Text)
  str_content_eval string_content = eval_loop (suc (length string_content)) string_content
