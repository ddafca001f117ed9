-- ===== src/Lexer/Reads.antt =====
-- What every token of the lexer keeps: it eats a front part of the text, and the suffix of a literal
-- starts inside the token.
use kclvm.Prelude.{
  ℕ, ◌≤◌, ◌≡◌, refl, Bool, true, false, not, ◌&&◌, ◌||◌, [], ◌∷◌, Text, ◌==◌, arith,
}
use kclvm.Lexer.Kind.{TokenKind}
use kclvm.Lexer.Cursor.{
  Cursor, eof_char, bump, eat_while, peek, peek1th, len_consumed, first_or_eof, tail_of,
}
use kclvm.Lexer.Number.{is_decimal_digit, number}
use kclvm.Lexer.Quoted.{Ending, ends_line, quoted_loop, string_token, eat_quoted_string}
use kclvm.Lexer.Scan.{
  Lexed, eat_comment, eat_string, or_eq, or_double, dots, backslash, delimiter, operator,
  is_wide_emoji, fake_ident_or_unknown_prefix, eat_ident, eat_lit_suffix, eat_number, token_kind,
  try_comment_magic, is_whitespace, try_string_magic, try_ident_magic,
}
use kclvm.Lexer.EatsNumber.{Eats-number, Eats-eat_lit_suffix}
use kclvm.Lexer.Eats.{
  LeftOf, LeftOf-refl, LeftOf-trans, LeftOf-cons, LeftOf-tail_of, if_lem, Eats, Eats-refl,
  Eats-trans, elim_lem, Eats-bump, Eats-eat_while, len_consumed_mono,
}

-- Where the suffix of a token starts, for a literal.
unfoldable pub suffix_start : TokenKind → ℕ
suffix_start (TokenKind.literal k n) = n
suffix_start _ = 0

unfoldable pub Reads : Cursor → Lexed → Type 0
Reads c r = Eats c r.1 × (suffix_start r.0 ≤ len_consumed r.1)

Reads-plain : (c c' : Cursor) (k : TokenKind) → Eats c c' → suffix_start k ≡ 0 → Reads c (k, c')
unfolding Reads
Reads-plain c c' k h e = (h, omega (arith, e))

Eats-bump2 : (c : Cursor) → Eats c (bump (bump c))
Eats-bump2 c = Eats-trans c (bump c) (bump (bump c)) (Eats-bump c) (Eats-bump (bump c))

unfoldable pub Ends : Text → Ending → Type 0
Ends s e = LeftOf s e.1

Ends-here : (s t : Text) (b : Bool) → LeftOf s t → Ends s (b, t)
unfolding Ends
Ends-here s t b h = h

Ends-cons : (c : ℕ) (s : Text) (e : Ending) → Ends s e → Ends (c ∷ s) e
unfolding Ends
Ends-cons c s e h = LeftOf-cons c s e.1 h

pub Ends-quoted_loop : (t : Bool) (q : ℕ) (s : Text) → Ends s (quoted_loop t q s)
unfolding quoted_loop
Ends-quoted_loop t q [] = Ends-here [] [] false (LeftOf-refl [])
Ends-quoted_loop t q (c ∷ []) =
    if_lem (Ends (c ∷ [])) (c == q && not t) (Ends-here (c ∷ []) [] true (c ∷ [], refl))
      (Ends-here (c ∷ []) [] false (c ∷ [], refl))
Ends-quoted_loop t q (c ∷ d ∷ s) =
    let next : (u : Bool) → Ends (c ∷ d ∷ s) (quoted_loop u q (d ∷ s)) =
      λ u. Ends-cons c (d ∷ s) (quoted_loop u q (d ∷ s)) (Ends-quoted_loop u q (d ∷ s)) in
    let here : (b : Bool) → Ends (c ∷ d ∷ s) (b, d ∷ s) =
      λ b. Ends-here (c ∷ d ∷ s) (d ∷ s) b (c ∷ [], refl) in
    elim_lem (Ends (c ∷ d ∷ s)) (c == b'\\' && (d == b'\\' || d == q))
      (Ends-cons c (d ∷ s) (quoted_loop t q s)
        (Ends-cons d s (quoted_loop t q s) (Ends-quoted_loop t q s)))
      (elim_lem (Ends (c ∷ d ∷ s)) (c == q)
        (elim_lem (Ends (c ∷ d ∷ s)) t
          (elim_lem (Ends (c ∷ d ∷ s)) (q == d && q == first_or_eof s)
            (Ends-here (c ∷ d ∷ s) (tail_of s) true
              (LeftOf-cons c (d ∷ s) (tail_of s) (LeftOf-cons d s (tail_of s) (LeftOf-tail_of s))))
            (next true))
          (here true))
        (elim_lem (Ends (c ∷ d ∷ s)) (not t && ends_line d) (here false) (next t)))

Reads-string_token :
    (t : Bool) (c : Cursor) (e : Ending) → Ends c.chars e → Reads c (string_token t c e)
unfolding Reads Ends string_token suffix_start
Reads-string_token t c (ok, rest) h = ((h, refl), omega arith)

Reads-eat_quoted_string : (q : ℕ) (c : Cursor) → Reads c (eat_quoted_string q c)
unfolding eat_quoted_string Ends
Reads-eat_quoted_string q c =
    if_lem (Reads c) (q == peek c && q == peek1th c)
      (Reads-string_token true c (quoted_loop true q (bump (bump c)).chars) (
        LeftOf-trans c.chars (bump (bump c)).chars (quoted_loop true q (bump (bump c)).chars).1
          (Eats-bump2 c).0 (Ends-quoted_loop true q (bump (bump c)).chars)))
      (Reads-string_token false c (quoted_loop false q c.chars) (Ends-quoted_loop false q c.chars))

-- A part that starts further on.
Reads-after : (a b : Cursor) (r : Lexed) → Eats a b → Reads b r → Reads a r
unfolding Reads
Reads-after a b r h k = (Eats-trans a b r.1 h k.0, k.1)

Reads-eat_comment : (c : Cursor) → Reads c (eat_comment c)
unfolding eat_comment suffix_start
Reads-eat_comment c =
    Reads-plain c (eat_comment c).1 (eat_comment c).0 (Eats-eat_while (λ x. not (x == b'\n')) c)
      refl

Reads-here : (c : Cursor) (k : TokenKind) → suffix_start k ≡ 0 → Reads c (k, c)
Reads-here c k e = Reads-plain c c k (Eats-refl c) e

Reads-one : (c : Cursor) (k : TokenKind) → suffix_start k ≡ 0 → Reads c (k, bump c)
Reads-one c k e = Reads-plain c (bump c) k (Eats-bump c) e

Reads-eat_string : (x : ℕ) (c : Cursor) → Reads c (eat_string x c)
unfolding eat_string suffix_start
Reads-eat_string x c =
    if_lem (Reads c) (x == b'r' || x == b'R')
      (if_lem (Reads c) (peek c == b'\'' || peek c == b'"')
        (Reads-after c (bump c) (eat_quoted_string (peek c) (bump c)) (Eats-bump c)
          (Reads-eat_quoted_string (peek c) (bump c)))
        (Reads-here c TokenKind.unknown refl))
      (if_lem (Reads c) (x == b'\'' || x == b'"') (Reads-eat_quoted_string x c)
        (Reads-here c TokenKind.unknown refl))

Reads-dots : (c : Cursor) → Reads c (dots c)
unfolding dots suffix_start
Reads-dots c =
    if_lem (Reads c) (peek c == b'.' && peek1th c == b'.')
      (Reads-plain c (bump (bump c)) TokenKind.dot_dot_dot (Eats-bump2 c) refl)
      (Reads-here c TokenKind.dot refl)

Reads-backslash : (c : Cursor) → Reads c (backslash c)
unfolding backslash suffix_start
Reads-backslash c = if_lem (Reads c) (peek c == b'\n') (Reads-one c TokenKind.line_continue refl) (
    if_lem (Reads c) (peek c == eof_char) (Reads-here c TokenKind.line_continue refl)
      (Reads-here c TokenKind.invalid_line_continue refl))

Reads-or_eq :
    (c : Cursor) (k l : TokenKind) → suffix_start k ≡ 0 → suffix_start l ≡ 0 → Reads c (or_eq k l c)
unfolding or_eq
Reads-or_eq c k l d e = if_lem (Reads c) (peek c == b'=') (Reads-one c k d) (Reads-here c l e)

Reads-or_double :
    (x : ℕ) (c : Cursor) (j k l m : TokenKind)
    → suffix_start j ≡ 0
    → suffix_start k ≡ 0
    → suffix_start l ≡ 0
    → suffix_start m ≡ 0
    → Reads c (or_double x j k l m c)
unfolding or_double
Reads-or_double x c j k l m a b d e =
    if_lem (Reads c) (peek c == x)
      (Reads-after c (bump c) (or_eq j k (bump c)) (Eats-bump c) (Reads-or_eq (bump c) j k a b))
      (Reads-or_eq c l m d e)

Reads-delimiter : (x : ℕ) (c : Cursor) (r : Lexed) → Reads c r → Reads c (delimiter x c r)
unfolding delimiter suffix_start
Reads-delimiter x c r h =
    (if_lem (Reads c) (x == 0x09) (Reads-here c TokenKind.tab refl) (
      if_lem (Reads c) (x == 0x20) (Reads-here c TokenKind.space refl) (
        if_lem (Reads c) (x == 0x0a) (Reads-here c TokenKind.newline refl) (
          if_lem (Reads c) (x == b';') (Reads-here c TokenKind.semi refl) (
            if_lem (Reads c) (x == b',') (Reads-here c TokenKind.comma refl) (
              if_lem (Reads c) (x == b'.') (Reads-dots c) (
                if_lem (Reads c) (x == b'(') (Reads-here c TokenKind.open_paren refl) (
                  if_lem (Reads c) (x == b')') (Reads-here c TokenKind.close_paren refl) (
                    if_lem (Reads c) (x == b'{') (Reads-here c TokenKind.open_brace refl) (
                      if_lem (Reads c) (x == b'}') (Reads-here c TokenKind.close_brace refl) (
                        if_lem (Reads c) (x == b'[') (Reads-here c TokenKind.open_bracket refl) (
                          if_lem (Reads c) (x == b']') (Reads-here c TokenKind.close_bracket refl) (
                            if_lem (Reads c) (x == b'@') (Reads-here c TokenKind.at_sign refl) (
                              if_lem (Reads c) (x == b'#') (Reads-here c TokenKind.pound refl) (
                                if_lem (Reads c) (x == b'~') (Reads-here c TokenKind.tilde refl) (
                                  if_lem (Reads c) (x == b'?')
                                    (Reads-here c TokenKind.question refl)
                                    (if_lem (Reads c) (x == b':')
                                      (Reads-here c TokenKind.colon refl)
                                      (if_lem (Reads c) (x == b'$')
                                        (Reads-here c TokenKind.dollar refl) h))))))))))))))))))

Reads-operator : (x : ℕ) (c : Cursor) (r : Lexed) → Reads c r → Reads c (operator x c r)
unfolding operator suffix_start
Reads-operator x c r h =
    (if_lem (Reads c) (x == b'=') (Reads-or_eq c TokenKind.eq_eq TokenKind.eq refl refl) (
      if_lem (Reads c) (x == b'!') (Reads-or_eq c TokenKind.bang_eq TokenKind.bang refl refl) (
        if_lem (Reads c) (x == b'<')
          (Reads-or_double b'<' c TokenKind.lt_lt_eq TokenKind.lt_lt TokenKind.lt_eq TokenKind.lt
            refl refl refl refl)
          (if_lem (Reads c) (x == b'>')
            (Reads-or_double b'>' c TokenKind.gt_gt_eq TokenKind.gt_gt TokenKind.gt_eq TokenKind.gt
              refl refl refl refl)
            (if_lem (Reads c) (x == b'-')
              (Reads-or_eq c TokenKind.minus_eq TokenKind.minus refl refl)
              (if_lem (Reads c) (x == b'&')
                (Reads-or_eq c TokenKind.and_eq TokenKind.and_sign refl refl)
                (if_lem (Reads c) (x == b'|')
                  (Reads-or_eq c TokenKind.or_eq TokenKind.or_sign refl refl)
                  (if_lem (Reads c) (x == b'+')
                    (Reads-or_eq c TokenKind.plus_eq TokenKind.plus refl refl)
                    (if_lem (Reads c) (x == b'*')
                      (Reads-or_double b'*' c TokenKind.star_star_eq TokenKind.star_star
                        TokenKind.star_eq TokenKind.star refl refl refl refl)
                      (if_lem (Reads c) (x == b'/')
                        (Reads-or_double b'/' c TokenKind.slash_slash_eq TokenKind.slash_slash
                          TokenKind.slash_eq TokenKind.slash refl refl refl refl)
                        (if_lem (Reads c) (x == b'^')
                          (Reads-or_eq c TokenKind.caret_eq TokenKind.caret refl refl)
                          (if_lem (Reads c) (x == b'%')
                            (Reads-or_eq c TokenKind.percent_eq TokenKind.percent refl refl)
                            (if_lem (Reads c) (x == b'\\') (Reads-backslash c) h)))))))))))))

module _ (is_id_start is_id_continue is_emoji : ℕ → Bool) where
  Reads-fake_ident_or_unknown_prefix :
      (c : Cursor) → Reads c (fake_ident_or_unknown_prefix is_id_start is_id_continue is_emoji c)
  unfolding fake_ident_or_unknown_prefix suffix_start
  Reads-fake_ident_or_unknown_prefix c =
      let p : ℕ → Bool = λ x.
        is_id_continue x || is_wide_emoji is_id_start is_id_continue is_emoji x || x == 0x200d in
      Reads-plain c (eat_while p c) TokenKind.invalid_ident (Eats-eat_while p c) refl

  Reads-eat_ident : (c : Cursor) → Reads c (eat_ident is_id_start is_id_continue is_emoji c)
  unfolding eat_ident suffix_start
  Reads-eat_ident c =
      let c' = eat_while is_id_continue c in
      if_lem (Reads c) (is_wide_emoji is_id_start is_id_continue is_emoji (peek c'))
        (Reads-after c c' (fake_ident_or_unknown_prefix is_id_start is_id_continue is_emoji c')
          (Eats-eat_while is_id_continue c) (Reads-fake_ident_or_unknown_prefix c'))
        (Reads-plain c c' TokenKind.ident (Eats-eat_while is_id_continue c) refl)

  Reads-eat_number :
      (x : ℕ) (c : Cursor) → Reads c (eat_number is_id_start is_id_continue is_emoji x c)
  unfolding eat_number Reads suffix_start
  Reads-eat_number x c =
      let c' = (number is_id_start x c).1 in
      let d = eat_lit_suffix is_id_start is_id_continue is_emoji c' in
      let h : Eats c' d = Eats-eat_lit_suffix is_id_start is_id_continue is_emoji c' in
      (Eats-trans c c' d (Eats-number is_id_start x c) h, len_consumed_mono c' d h)

  pub Reads-token_kind :
      (x : ℕ) (c : Cursor) → Reads c (token_kind is_id_start is_id_continue is_emoji x c)
  unfolding token_kind suffix_start
  Reads-token_kind x c = if_lem (Reads c) (try_comment_magic x) (Reads-eat_comment c) (
      if_lem (Reads c) (is_whitespace x) (Reads-here c TokenKind.whitespace refl) (
        if_lem (Reads c) (try_string_magic x c) (Reads-eat_string x c) (
          if_lem (Reads c) (try_ident_magic is_id_start is_id_continue is_emoji x c)
            (Reads-eat_ident c)
            (if_lem (Reads c) (is_decimal_digit x) (Reads-eat_number x c) (
              Reads-delimiter x c _ (
                Reads-operator x c _ (
                  if_lem (Reads c) (is_wide_emoji is_id_start is_id_continue is_emoji x)
                    (Reads-fake_ident_or_unknown_prefix c)
                    (Reads-here c TokenKind.unknown refl))))))))
