-- ===== src/Lexer/Quoted.antt =====
-- kclvm/lexer/src/kcl_cursor.rs: quoted strings. The opening quote has been eaten.
use kclvm.Prelude.{ℕ, Bool, true, false, not, ◌&&◌, ◌||◌, [], ◌∷◌, Text, if◌then◌else◌, ◌==◌}
use kclvm.Lexer.Kind.{LiteralKind, TokenKind}
use kclvm.Lexer.Cursor.{Cursor, peek, peek1th, bump, len_consumed, eof_char, first_or_eof, tail_of}

-- How a quoted string ended: whether it was terminated.
abbrev pub Ending : Type 0
Ending = Bool × Text

abbrev pub ends_line : ℕ → Bool
ends_line c = c == b'\r' || c == b'\n' || c == eof_char

-- The loop of `eat_quoted_string`, on the characters that are left.
unfoldable pub quoted_loop : Bool → ℕ → Text → Ending
quoted_loop triple quote [] = (false, [])
quoted_loop triple quote (c ∷ []) = if c == quote && not triple then (true, []) else (false, [])
quoted_loop triple quote (c ∷ d ∷ s) = elim (c == b'\\' && (d == b'\\' || d == quote)) [
  | true ↦ quoted_loop triple quote s
  | false ↦ elim (c == quote) [
    | true ↦ elim triple [
      | true ↦ elim (quote == d && quote == first_or_eof s) [
        | true ↦ (true, tail_of s)
        | false ↦ quoted_loop true quote (d ∷ s)
      ]
      | false ↦ (true, d ∷ s)
    ]
    | false ↦ elim (not triple && ends_line d) [
      | true ↦ (false, d ∷ s)
      | false ↦ quoted_loop triple quote (d ∷ s)
    ]
  ]
]

-- The string literal that ended so; one that is not closed is never marked as triple quoted.
unfoldable pub string_token : Bool → Cursor → Ending → TokenKind × Cursor
string_token triple c (terminated, chars) =
    let c' = record c { chars = chars } in
    (
      TokenKind.literal (LiteralKind.str_literal terminated (terminated && triple))
          (len_consumed c'),
      c',
    )

unfoldable pub eat_quoted_string : ℕ → Cursor → TokenKind × Cursor
eat_quoted_string quote c =
    if quote == peek c && quote == peek1th c
    then string_token true c (quoted_loop true quote (bump (bump c)).chars)
    else string_token false c (quoted_loop false quote c.chars)
