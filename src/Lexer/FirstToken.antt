-- ===== src/Lexer/FirstToken.antt =====
-- kclvm/lexer/src/lib.rs, `first_token`: what is known of the first token of a text.
use kclvm.Prelude.{ℕ, ◌∙◌, ◌≤◌, ◌≡◌, ◌⊎◌, ap, Bool, ◌∷◌, Text, arith, true}
use kclvm.Lexer.Kind.{TokenKind, LiteralKind, Base}
use kclvm.Lexer.Cursor.{
  len_consumed, str_len, len_utf8, bump, peek, new_cursor, reset_len_consumed, Cursor, eat_while,
}
use kclvm.Lexer.Scan.{
  Lexed, token_kind, token, first_token, eat_comment, is_wide_emoji, fake_ident_or_unknown_prefix,
  eat_ident, eat_number, try_comment_magic, is_whitespace, try_string_magic, try_ident_magic,
}
use kclvm.Lexer.Eats.{str_len-append, if_lem}
use kclvm.Lexer.Reads.{suffix_start}
use kclvm.Lexer.Pieces.{Cuts, token-Cuts}
use kclvm.Lexer.LiteralLength.{base_of, after_first, number-Prefixed, is_number, number-IsNumber}
use kclvm.Lexer.Exact.{Exact, is_raw_mark, marks_len, Exact-delimiter, Exact-operator}
use kclvm.Lexer.Number.{is_decimal_digit, number}
use kclvm.Lexer.ExactStrings.{eat_string-Exact}

literal-Exact :
    (x : ℕ) (c0 : Cursor) (k : LiteralKind) (n : ℕ) (c' : Cursor)
    → is_number k ≡ true
    → (base_of k ≡ Base.decimal) ⊎ (2 ≤ n)
    → Exact x c0 (TokenKind.literal k n, c')
unfolding Exact
literal-Exact x c0 (LiteralKind.int_literal b e) n c' i h = h
literal-Exact x c0 (LiteralKind.float_literal b e) n c' i h = h
literal-Exact x c0 (LiteralKind.str_literal t u) n c' i h = cc
literal-Exact x c0 (LiteralKind.bool_literal b) n c' i h = cc

module _ (is_id_start is_id_continue is_emoji : ℕ → Bool) where
  eat_ident-Exact :
      (x : ℕ) (c0 c : Cursor) → Exact x c0 (eat_ident is_id_start is_id_continue is_emoji c)
  unfolding eat_ident fake_ident_or_unknown_prefix Exact
  eat_ident-Exact x c0 c =
      if_lem (Exact x c0)
        (is_wide_emoji is_id_start is_id_continue is_emoji (peek (eat_while is_id_continue c))) tt
        tt

  eat_number-Exact :
      (x : ℕ) (s : Text) (c0 : Cursor)
      → Exact x c0 (eat_number is_id_start is_id_continue is_emoji x (after_first x s))
  unfolding eat_number
  eat_number-Exact x s c0 =
      let r = number is_id_start x (after_first x s) in
      literal-Exact x c0 r.0 (len_consumed r.1) _ (number-IsNumber is_id_start x (after_first x s))
        (number-Prefixed is_id_start x s)

  token_kind-Exact :
      (x : ℕ) (s : Text)
      → Exact x
          (after_first x s)
          (token_kind is_id_start is_id_continue is_emoji x (after_first x s))
  unfolding token_kind Exact eat_comment fake_ident_or_unknown_prefix
  token_kind-Exact x s =
      let c = after_first x s in
      let P : Lexed → Type 0 = Exact x c in
      if_lem P (try_comment_magic x) tt (
        if_lem P (is_whitespace x) tt (
          if_lem P (try_string_magic x c) (eat_string-Exact x s c) (
            if_lem P (try_ident_magic is_id_start is_id_continue is_emoji x c)
              (eat_ident-Exact x c c)
              (if_lem P (is_decimal_digit x) (eat_number-Exact x s c) (
                Exact-delimiter x c _ (
                  Exact-operator x c _
                    (if_lem P (is_wide_emoji is_id_start is_id_continue is_emoji x) tt tt)))))))

-- A token of so many bytes, at a character.
unfoldable pub Fits : ℕ → ℕ → TokenKind → Type 0
Fits x len (TokenKind.literal (LiteralKind.str_literal terminated triple) n) =
    (marks_len triple (is_raw_mark x) ≤ n) × (n ≤ len)
Fits x len (TokenKind.literal kind n) = ((base_of kind ≡ Base.decimal) ⊎ (2 ≤ n)) × (n ≤ len)
Fits x len TokenKind.minus = len ≡ len_utf8 x
Fits x len kind = Unit

only_first : (x : ℕ) (s : Text) → len_consumed (after_first x s) ≡ len_utf8 x
unfolding len_consumed str_len
only_first x s = omega arith

Exact-Fits :
    (x : ℕ) (s : Text) (r : Lexed)
    → Exact x (after_first x s) r
    → suffix_start r.0 ≤ len_consumed r.1
    → Fits x (len_consumed r.1) r.0
unfolding Exact Fits suffix_start len_consumed str_len
Exact-Fits x s (TokenKind.literal (LiteralKind.str_literal a b) n, c) h l = (h, l)
Exact-Fits x s (TokenKind.literal (LiteralKind.int_literal a b) n, c) h l = (h, l)
Exact-Fits x s (TokenKind.literal (LiteralKind.float_literal a b) n, c) h l = (h, l)
Exact-Fits x s (TokenKind.literal (LiteralKind.bool_literal a) n, c) h l = (h, l)
Exact-Fits x s (TokenKind.minus, c) h l = ap len_consumed h ∙ only_first x s
Exact-Fits x s (kind, c) h l = tt

module _ (is_id_start is_id_continue is_emoji : ℕ → Bool) (x : ℕ) (s : Text) where
  abbrev next : TokenKind × ℕ
  next = let t = first_token is_id_start is_id_continue is_emoji (x ∷ s) in (t.kind, t.len)

  pub first_token-Fits : Fits x next.1 next.0
  unfolding first_token token new_cursor reset_len_consumed peek bump
  first_token-Fits =
      let h : Cuts x s (token is_id_start is_id_continue is_emoji (new_cursor (x ∷ s))) =
        token-Cuts is_id_start is_id_continue is_emoji x (str_len (x ∷ s)) s in
      Exact-Fits x s (token_kind is_id_start is_id_continue is_emoji x (after_first x s))
        (token_kind-Exact is_id_start is_id_continue is_emoji x s) h.3

  pub first_token-len_le : next.1 ≤ str_len (x ∷ s)
  unfolding first_token new_cursor reset_len_consumed
  first_token-len_le =
      let h : Cuts x s (token is_id_start is_id_continue is_emoji (new_cursor (x ∷ s))) =
        token-Cuts is_id_start is_id_continue is_emoji x (str_len (x ∷ s)) s in
      omega (
        arith,
        h.2,
        ap str_len h.1,
        str_len-append (x ∷ h.0)
            (token is_id_start is_id_continue is_emoji (new_cursor (x ∷ s))).1.chars,
      )
