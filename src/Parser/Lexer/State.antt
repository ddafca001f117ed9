-- ===== src/Parser/Lexer/State.antt =====
-- kclvm/parser/src/lexer/mod.rs: the state of the lexer, and the slices of its text. The session is the
-- list of the errors it was given, the latest first.
use kclvm.Prelude.{
  ℕ, zero, suc, ◌+◌, ◌-◌, ◌/◌, ◌%◌, Bool, false, not, ◌||◌, List, [], ◌∷◌, ◌++◌, Option, none, some,
  Text, if◌then◌else◌, ltb, get_elem?, ◌>>=◌,
}
use kclvm.Lexer.Cursor.{len_utf8, str_len}
use kclvm.Parser.Token.{TokenKind}
use kclvm.Parser.Lexer.Run.{Run, or_panic}

pub record SpanError : Type 0 where
  pub message : Text
  pub lo : ℕ
  pub hi : ℕ

pub record IndentLevel : Type 0 where
  pub tabs : ℕ
  pub spaces : ℕ

-- The stacks of delimiters and of indents have their top first.
pub record Lexer : Type 0 where
  pub start_pos : ℕ
  pub pos : ℕ
  pub src : Text
  pub new_line_beginning : Bool
  pub delims : List TokenKind
  pub tabs : ℕ
  pub spaces : ℕ
  pub indents : List IndentLevel
  pub errors : List SpanError

-- What is left of a text after its first bytes; `none` is that they end inside a character, or past the
-- end.
unfoldable pub drop_bytes : ℕ → Text → Option Text
drop_bytes zero s = some s
drop_bytes (suc n) [] = none
drop_bytes (suc n) (c ∷ s) =
    let rest = drop_bytes (suc n - len_utf8 c) s in if ltb (suc n) (len_utf8 c) then none else rest

-- The first bytes of a text.
unfoldable pub take_bytes : ℕ → Text → Option Text
take_bytes zero s = some []
take_bytes (suc n) [] = none
take_bytes (suc n) (c ∷ s) =
    let rest = take_bytes (suc n - len_utf8 c) s in
    if ltb (suc n) (len_utf8 c) then none else rest >>= λ t. some (c ∷ t)

-- `&s[lo..hi]`; `none` is its panic.
unfoldable pub slice : Text → ℕ → ℕ → Option Text
slice s lo hi = if ltb hi lo then none else drop_bytes lo s >>= take_bytes (hi - lo)

-- The bytes of a character in UTF-8, and `str::as_bytes`.
unfoldable pub encode_utf8 : ℕ → List ℕ
encode_utf8 c =
    if ltb c 128
    then c ∷ []
    else if ltb c 2048
    then (192 + c / 64) ∷ (128 + c % 64) ∷ []
    else if ltb c 65536
    then (224 + c / 4096) ∷ (128 + c / 64 % 64) ∷ (128 + c % 64) ∷ []
    else (240 + c / 262144) ∷ (128 + c / 4096 % 64) ∷ (128 + c / 64 % 64) ∷ (128 + c % 64) ∷ []

unfoldable pub as_bytes : Text → List ℕ
as_bytes [] = []
as_bytes (c ∷ s) = encode_utf8 c ++ as_bytes s

unfoldable pub src_index : Lexer → ℕ → ℕ
src_index lx pos = pos - lx.start_pos

-- The byte at a position, as a character.
unfoldable pub char_from : Lexer → ℕ → Run ℕ
char_from lx pos = or_panic (get_elem? (as_bytes lx.src) (src_index lx pos))

unfoldable pub str_from_to : Lexer → ℕ → ℕ → Run Text
str_from_to lx start end = or_panic (slice lx.src (src_index lx start) (src_index lx end))

unfoldable pub str_from : Lexer → ℕ → Run Text
str_from lx start = str_from_to lx start lx.pos

unfoldable pub has_next_token : Lexer → ℕ → ℕ → Bool
has_next_token lx start end =
    not (ltb (src_index lx end) (src_index lx start) || ltb (str_len lx.src) (src_index lx end))

-- `struct_span_error` of the session.
unfoldable pub span_error : Text → ℕ → ℕ → Lexer → Lexer
span_error message lo hi lx = record lx {
  errors = record { message = message; lo = lo; hi = hi } ∷ lx.errors;
}

-- The state that `parse_token_streams` starts with.
unfoldable pub new_lexer : Text → ℕ → Lexer
new_lexer src start_pos = record {
  start_pos = start_pos;
  pos = start_pos;
  src = src;
  new_line_beginning = false;
  delims = [];
  tabs = 0;
  spaces = 0;
  indents = record { tabs = 0; spaces = 0 } ∷ [];
  errors = [];
}
