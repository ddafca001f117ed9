-- ===== src/Parser/Lexer/Loop.antt =====
-- kclvm/parser/src/lexer/mod.rs: the loops, from a text to its tokens.
use kclvm.Prelude.{
  ℕ, zero, suc, ◌+◌, Bool, true, false, not, List, [], ◌∷◌, ◌++◌, Option, none, some, Text,
  if◌then◌else◌, length,
}
use kclvm.Lexer.Cursor.{str_len, no_chars}
use kclvm.Lexer.Scan.{first_token}
use kclvm.Parser.Token.{Token, TokenKind}
use kclvm.Parser.Lexer.Run.{Run, returned, out_of_fuel, or_panic, match_option, ◌>>=◌}
use kclvm.Parser.Lexer.State.{Lexer, IndentLevel, slice, src_index, new_lexer}
use kclvm.Parser.Lexer.Indent.{IndentOrDedents, lex_indent_context, mark}
use kclvm.Parser.Lexer.Symbols.{lex_token}

-- A token, which has indents or dedents before it at the start of some lines.
pub data TokenWithIndents : Type 0 where
  token : Token → TokenWithIndents
  with_indent : Token → IndentOrDedents → TokenWithIndents

abbrev pub leading : IndentOrDedents → List Token
leading (IndentOrDedents.indent t) = t ∷ []
leading (IndentOrDedents.dedents ts) = ts

-- `append_to`: what is appended.
unfoldable pub appended : TokenWithIndents → List Token
appended (TokenWithIndents.token t) = t ∷ []
appended (TokenWithIndents.with_indent t i) = leading i ++ t ∷ []

abbrev pub is_eof_kind : TokenKind → Bool
is_eof_kind TokenKind.eof = true
is_eof_kind _ = false

unfoldable pub is_eof_token : TokenWithIndents → Bool
is_eof_token (TokenWithIndents.token t) = is_eof_kind t.kind
is_eof_token (TokenWithIndents.with_indent t i) = is_eof_kind t.kind

abbrev pub with_leading : Token → Option IndentOrDedents → TokenWithIndents
with_leading t none = TokenWithIndents.token t
with_leading t (some i) = TokenWithIndents.with_indent t i

-- What one turn of the loop of `token` finds: a token that is returned, or nothing.
abbrev pub Turn : Type 0
Turn = Option TokenWithIndents × Lexer

abbrev pub finish : Option IndentOrDedents → ℕ → Option TokenKind × Lexer → Turn
finish i start (none, lx) = (none, lx)
finish i start (some kind, lx) =
    (some (with_leading (record { kind = kind; lo = start; hi = lx.pos }) i), lx)

-- One dedent for each indent that is open.
unfoldable pub open_dedents : List IndentLevel → Lexer → List Token
open_dedents [] lx = []
open_dedents (i ∷ []) lx = []
open_dedents (i ∷ j ∷ is) lx = mark TokenKind.dedent lx ∷ open_dedents (j ∷ is) lx

-- What `eof` appends.
unfoldable pub eof : Lexer → List Token
eof lx =
    (if not lx.new_line_beginning then mark TokenKind.newline lx ∷ [] else [])
    ++ open_dedents lx.indents lx
    ++ mark TokenKind.eof lx ∷ []

module _ (is_id_start is_id_continue is_emoji : ℕ → Bool) (character : Text → Option ℕ) where
  -- A turn at a text that is not empty.
  unfoldable pub turn_at : Text → Lexer → Run Turn
  turn_at text lx = do
    let next = first_token is_id_start is_id_continue is_emoji text
    (i, lx1) ← lex_indent_context next.kind lx
    let start = lx1.pos
    r ← lex_token character next.kind start (record lx1 { pos = lx1.pos + next.len })
    returned (finish i start r)

  unfoldable pub turn : Lexer → Run Turn
  turn lx = or_panic (slice lx.src (src_index lx lx.pos) (str_len lx.src)) >>= λ text.
      if no_chars text
      then returned (some (TokenWithIndents.token (mark TokenKind.eof lx)), lx)
      else turn_at text lx

  -- The loop of `token`.
  unfoldable pub token_loop : ℕ → Lexer → Run (TokenWithIndents × Lexer)
  token_loop zero lx = out_of_fuel
  token_loop (suc f) lx =
      turn lx >>= λ r. match_option r.0 (token_loop f r.1) (λ t. returned (t, r.1))

  -- The loop of `into_tokens`. Each call of `token` has the fuel that is left.
  unfoldable pub into_tokens : ℕ → Lexer → Run (List Token × Lexer)
  into_tokens zero lx = out_of_fuel
  into_tokens (suc f) lx = token_loop (suc f) lx >>= λ r.
      let rest = into_tokens f r.1 in
      if is_eof_token r.0
      then returned (eof r.1, r.1)
      else (rest >>= λ rest. returned (appended r.0 ++ rest.0, rest.1))

  -- The tokens of a text, and the state that the lexer ends in, which has the errors. Each turn takes a
  -- character at least.
  unfoldable pub parse_token_streams : Text → ℕ → Run (List Token × Lexer)
  parse_token_streams src start_pos = into_tokens (suc (length src)) (new_lexer src start_pos)
