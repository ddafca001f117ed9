-- ===== src/Lexer/Exact.antt =====
-- What is known of a token of a text: a string has its quotes, an integer or a float with a prefix has that,
-- and a minus is alone. Delimiters and operators.
use kclvm.Prelude.{ℕ, ◌≤◌, ◌≡◌, ◌⊎◌, refl, Bool, ◌&&◌, ◌||◌, ◌==◌, if◌then◌else◌}
use kclvm.Lexer.Kind.{TokenKind, LiteralKind, Base}
use kclvm.Lexer.Cursor.{Cursor, eof_char, bump, peek, peek1th}
use kclvm.Lexer.Scan.{Lexed, or_eq, or_double, dots, backslash, delimiter, operator}
use kclvm.Lexer.Eats.{if_lem}
use kclvm.Lexer.LiteralLength.{base_of}

abbrev pub is_raw_mark : ℕ → Bool
is_raw_mark x = x == b'r' || x == b'R'

-- The bytes of the marks that a string starts with.
abbrev pub marks_len : Bool → Bool → ℕ
marks_len triple is_raw = if triple then (if is_raw then 4 else 3) else if is_raw then 2 else 1

unfoldable pub Exact : ℕ → Cursor → Lexed → Type 0
Exact x c (TokenKind.literal (LiteralKind.str_literal terminated triple) n, c') =
    marks_len triple (is_raw_mark x) ≤ n
Exact x c (TokenKind.literal kind n, c') = (base_of kind ≡ Base.decimal) ⊎ (2 ≤ n)
Exact x c (TokenKind.minus, c') = c' ≡ c
Exact x c (kind, c') = Unit

Exact-dots : (x : ℕ) (c : Cursor) → Exact x c (dots c)
unfolding dots Exact
Exact-dots x c = if_lem (Exact x c) (peek c == b'.' && peek1th c == b'.') tt tt

Exact-backslash : (x : ℕ) (c : Cursor) → Exact x c (backslash c)
unfolding backslash Exact
Exact-backslash x c =
    if_lem (Exact x c) (peek c == b'\n') tt (if_lem (Exact x c) (peek c == eof_char) tt tt)

Exact-or_eq :
    (x : ℕ) (c : Cursor) (k l : TokenKind)
    → Exact x c (k, bump c)
    → Exact x c (l, c)
    → Exact x c (or_eq k l c)
unfolding or_eq
Exact-or_eq x c k l d e = if_lem (Exact x c) (peek c == b'=') d e

Exact-or_double :
    (y x : ℕ) (c : Cursor) (j k l m : TokenKind)
    → Exact x c (j, bump (bump c))
    → Exact x c (k, bump c)
    → Exact x c (l, bump c)
    → Exact x c (m, c)
    → Exact x c (or_double y j k l m c)
unfolding or_double or_eq
Exact-or_double y x c j k l m a b d e =
    if_lem (Exact x c) (peek c == y) (if_lem (Exact x c) (peek (bump c) == b'=') a b)
      (Exact-or_eq x c l m d e)

pub Exact-delimiter : (x : ℕ) (c : Cursor) (r : Lexed) → Exact x c r → Exact x c (delimiter x c r)
unfolding delimiter Exact
Exact-delimiter x c r h =
    (if_lem (Exact x c) (x == 0x09) tt (
      if_lem (Exact x c) (x == 0x20) tt (
        if_lem (Exact x c) (x == 0x0a) tt (
          if_lem (Exact x c) (x == b';') tt (
            if_lem (Exact x c) (x == b',') tt (
              if_lem (Exact x c) (x == b'.') (Exact-dots x c) (
                if_lem (Exact x c) (x == b'(') tt (
                  if_lem (Exact x c) (x == b')') tt (
                    if_lem (Exact x c) (x == b'{') tt (
                      if_lem (Exact x c) (x == b'}') tt (
                        if_lem (Exact x c) (x == b'[') tt (
                          if_lem (Exact x c) (x == b']') tt (
                            if_lem (Exact x c) (x == b'@') tt (
                              if_lem (Exact x c) (x == b'#') tt (
                                if_lem (Exact x c) (x == b'~') tt (
                                  if_lem (Exact x c) (x == b'?') tt (
                                    if_lem (Exact x c) (x == b':') tt
                                      (if_lem (Exact x c) (x == b'$') tt h))))))))))))))))))

pub Exact-operator : (x : ℕ) (c : Cursor) (r : Lexed) → Exact x c r → Exact x c (operator x c r)
unfolding operator Exact
Exact-operator x c r h =
    (if_lem (Exact x c) (x == b'=') (Exact-or_eq x c TokenKind.eq_eq TokenKind.eq tt tt) (
      if_lem (Exact x c) (x == b'!') (Exact-or_eq x c TokenKind.bang_eq TokenKind.bang tt tt) (
        if_lem (Exact x c) (x == b'<')
          (Exact-or_double b'<' x c TokenKind.lt_lt_eq TokenKind.lt_lt TokenKind.lt_eq TokenKind.lt
            tt tt tt tt)
          (if_lem (Exact x c) (x == b'>')
            (Exact-or_double b'>' x c TokenKind.gt_gt_eq TokenKind.gt_gt TokenKind.gt_eq
              TokenKind.gt tt tt tt tt)
            (if_lem (Exact x c) (x == b'-')
              (Exact-or_eq x c TokenKind.minus_eq TokenKind.minus tt refl)
              (if_lem (Exact x c) (x == b'&')
                (Exact-or_eq x c TokenKind.and_eq TokenKind.and_sign tt tt)
                (if_lem (Exact x c) (x == b'|')
                  (Exact-or_eq x c TokenKind.or_eq TokenKind.or_sign tt tt)
                  (if_lem (Exact x c) (x == b'+')
                    (Exact-or_eq x c TokenKind.plus_eq TokenKind.plus tt tt)
                    (if_lem (Exact x c) (x == b'*')
                      (Exact-or_double b'*' x c TokenKind.star_star_eq TokenKind.star_star
                        TokenKind.star_eq TokenKind.star tt tt tt tt)
                      (if_lem (Exact x c) (x == b'/')
                        (Exact-or_double b'/' x c TokenKind.slash_slash_eq TokenKind.slash_slash
                          TokenKind.slash_eq TokenKind.slash tt tt tt tt)
                        (if_lem (Exact x c) (x == b'^')
                          (Exact-or_eq x c TokenKind.caret_eq TokenKind.caret tt tt)
                          (if_lem (Exact x c) (x == b'%')
                            (Exact-or_eq x c TokenKind.percent_eq TokenKind.percent tt tt)
                            (if_lem (Exact x c) (x == b'\\') (Exact-backslash x c) h)))))))))))))
