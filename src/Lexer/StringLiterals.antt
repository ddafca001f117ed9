-- ===== src/Lexer/StringLiterals.antt =====
-- A quoted text is read as one terminated string literal.
use kclvm.Prelude.{
  ℕ, ◌+◌, ◌-◌, ◌≡◌, refl, ap, sym, ◌∙◌, ◌≢◌, ◌⊎◌, inl, inr, Bool, true, false, ◌&&◌, [], ◌∷◌, ◌++◌,
  Text, arith, ◌==◌,
}
use kclvm.Lexer.Kind.{Token, TokenKind, LiteralKind}
use kclvm.Lexer.Cursor.{
  Cursor, new_cursor, str_len, len_utf8, bump, peek, peek1th, len_consumed, first_or_eof,
  second_or_eof,
}
use kclvm.Lexer.Quoted.{ends_line, quoted_loop, string_token, eat_quoted_string}
use kclvm.Lexer.Scan.{token_kind, token, is_whitespace, try_string_magic, eat_string}
use kclvm.Lexer.Eats.{str_len-append}

abbrev pub IsQuote : ℕ → Type 0
IsQuote q = (q ≡ b'\'') ⊎ (q ≡ b'"')

-- What may stand between two quotes on one line: a backslash only before a backslash or the quote.
pub data Body : ℕ → Text → Type 0 where
  empty : {q : ℕ} → Body q []
  plain : {q c : ℕ} {s : Text} → c ≢ q → c ≢ b'\\' → ends_line c ≡ false → Body q s → Body q (c ∷ s)
  escaped : {q d : ℕ} {s : Text} → (d ≡ b'\\') ⊎ (d ≡ q) → Body q s → Body q (b'\\' ∷ d ∷ s)

-- Two quotes do not stand side by side where the text starts.
abbrev pub NotTriple : ℕ → Text → Text → Type 0
NotTriple q [] rest = first_or_eof rest ≢ q
NotTriple q (c ∷ s) rest = Unit

-- The character after a character of the body.
abbrev Next : Text → Type 0
Next t = (d : ℕ) × (u : Text) × (t ≡ d ∷ u) × (ends_line d ≡ false)

quote-Next : (q : ℕ) (rest : Text) → IsQuote q → Next (q ∷ rest)
quote-Next q rest h = (q, rest, refl, ground (arith, h))

Body-Next : (q : ℕ) (s rest : Text) → IsQuote q → Body q s → Next (s ++ q ∷ rest)
Body-Next q [] rest h b = quote-Next q rest h
Body-Next q (c ∷ s) rest h (plain n m e b) = (c, s ++ q ∷ rest, refl, e)
Body-Next q (c ∷ d ∷ s) rest h (escaped e b) = (b'\\', d ∷ s ++ q ∷ rest, refl, refl)

quoted_loop-close :
    (q : ℕ) (rest : Text) → IsQuote q → quoted_loop false q (q ∷ rest) ≡ (true, rest)
unfolding quoted_loop
quoted_loop-close q [] h = ground (arith, h)
quoted_loop-close q (d ∷ rest) h = ground (arith, h)

quoted_loop-plain :
    (q c d : ℕ) (u : Text)
    → c ≢ q
    → c ≢ b'\\'
    → ends_line d ≡ false
    → quoted_loop false q (c ∷ d ∷ u) ≡ quoted_loop false q (d ∷ u)
unfolding quoted_loop
quoted_loop-plain q c d u n m e = ground (arith, n, m, e)

quoted_loop-escaped :
    (q d : ℕ) (s : Text)
    → (d ≡ b'\\') ⊎ (d ≡ q)
    → quoted_loop false q (b'\\' ∷ d ∷ s) ≡ quoted_loop false q s
unfolding quoted_loop
quoted_loop-escaped q d s h = ground (arith, h)

quoted_loop-Body :
    (q : ℕ) (s rest : Text)
    → IsQuote q
    → Body q s
    → quoted_loop false q (s ++ q ∷ rest) ≡ (true, rest)
quoted_loop-Body q [] rest h b = quoted_loop-close q rest h
quoted_loop-Body q (c ∷ s) rest h (plain n m e b) =
    let (d, u, k, l) = Body-Next q s rest h b in
    ap (λ t. quoted_loop false q (c ∷ t)) k
    ∙ quoted_loop-plain q c d u n m l
    ∙ ap (λ t. quoted_loop false q t) (sym k)
    ∙ quoted_loop-Body q s rest h b
quoted_loop-Body q (c ∷ d ∷ s) rest h (escaped e b) =
    quoted_loop-escaped q d (s ++ q ∷ rest) e ∙ quoted_loop-Body q s rest h b

not_triple :
    (q : ℕ) (s rest : Text)
    → IsQuote q
    → Body q s
    → NotTriple q s rest
    → (q == first_or_eof (s ++ q ∷ rest) && q == second_or_eof (s ++ q ∷ rest)) ≡ false
not_triple q [] rest h b n = ground (arith, n)
not_triple q (c ∷ s) rest h (plain n m e b) k = ground (arith, n)
not_triple q (c ∷ d ∷ s) rest h (escaped e b) k = ground (arith, h)

-- The literal of a body, with its quotes.
abbrev pub closed_literal : ℕ → Text → Token
closed_literal q s = record {
  kind = TokenKind.literal (LiteralKind.str_literal true false) (str_len s + 2);
  len = str_len s + 2;
}

literal_len :
    (q : ℕ) (s rest : Text)
    → IsQuote q
    → (str_len (q ∷ s ++ q ∷ rest) - str_len rest) ≡ str_len s + 2
unfolding str_len len_utf8
literal_len q s rest (inl h) = rw h (omega (arith, str_len-append s (b'\'' ∷ rest)))
literal_len q s rest (inr h) = rw h (omega (arith, str_len-append s (b'"' ∷ rest)))

module _ (is_id_start is_id_continue is_emoji : ℕ → Bool) where
  token_kind-quote :
      (q : ℕ) (c : Cursor)
      → IsQuote q
      → token_kind is_id_start is_id_continue is_emoji q c ≡ eat_quoted_string q c
  unfolding token_kind is_whitespace try_string_magic eat_string
  token_kind-quote q c (inl h) = rw h
  token_kind-quote q c (inr h) = rw h

  -- A quote, a text, and the quote again are read as one terminated string literal of all these
  -- bytes, and what follows is left, if the text is made of characters other than that quote, the
  -- backslash, the ends of a line and NUL, and of backslashes each with a backslash or that quote
  -- after it, and if it is not the empty text before a third quote.
  pub token-Body :
      (q : ℕ) (s rest : Text)
      → IsQuote q
      → Body q s
      → NotTriple q s rest
      → token is_id_start is_id_continue is_emoji (new_cursor (q ∷ s ++ q ∷ rest))
        ≡ (closed_literal q s, record { initial_len = str_len (q ∷ s ++ q ∷ rest); chars = rest })
  unfolding token new_cursor peek peek1th bump len_consumed eat_quoted_string string_token
  token-Body q s rest h b n =
      let c : Cursor = record {
        initial_len = str_len (q ∷ s ++ q ∷ rest);
        chars = s ++ q ∷ rest;
      } in
      rw (
        token_kind-quote q c h,
        not_triple q s rest h b n,
        quoted_loop-Body q s rest h b,
        literal_len q s rest h,
      )
