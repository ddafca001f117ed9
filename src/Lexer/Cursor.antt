-- ===== src/Lexer/Cursor.antt =====
-- kclvm/lexer/src/cursor.rs: the characters that are left of a text, and the bytes that were left when
-- the token began. The last character eaten, which debug builds keep for assertions, is not modelled.
use kclvm.Prelude.{ℕ, ◌+◌, ◌-◌, Bool, true, false, [], ◌∷◌, Text, if◌then◌else◌, ltb}

-- `char::len_utf8`.
unfoldable pub len_utf8 : ℕ → ℕ
len_utf8 c = if ltb c 128 then 1 else if ltb c 2048 then 2 else if ltb c 65536 then 3 else 4

-- `str::len`, in bytes.
unfoldable pub str_len : Text → ℕ
str_len [] = 0
str_len (c ∷ s) = len_utf8 c + str_len s

pub record Cursor : Type 0 where
  pub initial_len : ℕ
  pub chars : Text

unfoldable pub new_cursor : Text → Cursor
new_cursor input = record { initial_len = str_len input; chars = input }

abbrev pub eof_char : ℕ
eof_char = 0

abbrev pub first_or_eof : Text → ℕ
first_or_eof [] = eof_char
first_or_eof (c ∷ s) = c

abbrev pub second_or_eof : Text → ℕ
second_or_eof [] = eof_char
second_or_eof (c ∷ s) = first_or_eof s

unfoldable pub peek : Cursor → ℕ
peek c = first_or_eof c.chars

unfoldable pub peek1th : Cursor → ℕ
peek1th c = second_or_eof c.chars

abbrev pub no_chars : Text → Bool
no_chars [] = true
no_chars (c ∷ s) = false

unfoldable pub is_eof : Cursor → Bool
is_eof c = no_chars c.chars

unfoldable pub len_consumed : Cursor → ℕ
len_consumed c = c.initial_len - str_len c.chars

unfoldable pub reset_len_consumed : Cursor → Cursor
reset_len_consumed c = record { initial_len = str_len c.chars; chars = c.chars }

abbrev pub tail_of : Text → Text
tail_of [] = []
tail_of (c ∷ s) = s

-- `bump` without the character that it returns.
unfoldable pub bump : Cursor → Cursor
bump c = record c { chars = tail_of c.chars }

-- The loop of `eat_while`.
unfoldable pub drop_while : (ℕ → Bool) → Text → Text
drop_while p [] = []
drop_while p (c ∷ s) = if p c then drop_while p s else c ∷ s

unfoldable pub eat_while : (ℕ → Bool) → Cursor → Cursor
eat_while p c = record c { chars = drop_while p c.chars }
