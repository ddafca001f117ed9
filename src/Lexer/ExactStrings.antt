-- ===== src/Lexer/ExactStrings.antt =====
-- kclvm/lexer/src/lib.rs, `eat_string`: a string has its quotes.
use kclvm.Prelude.{
  ℕ, ◌+◌, ◌≤◌, ◌≡◌, ◌⊎◌, refl, ap, subst, Bool, true, false, ◌&&◌, ◌||◌, [], ◌∷◌, Text, ◌==◌, arith,
  length, if◌then◌else◌,
}
use kclvm.Lexer.Kind.{TokenKind}
use kclvm.Lexer.Cursor.{
  Cursor, eof_char, bump, peek, peek1th, len_consumed, str_len, len_utf8, first_or_eof,
}
use kclvm.Lexer.Quoted.{Ending, quoted_loop, string_token, eat_quoted_string}
use kclvm.Lexer.Scan.{eat_string}
use kclvm.Lexer.Eats.{LeftOf, if_lem, if_case, str_len-append}
use kclvm.Lexer.Reads.{Ends, Ends-quoted_loop}
use kclvm.Lexer.LiteralLength.{after_first, len_utf8_pos}
use kclvm.Lexer.Exact.{Exact, is_raw_mark, marks_len}

length-str_len : (s : Text) → length s ≤ str_len s
unfolding str_len
length-str_len [] = omega arith
length-str_len (c ∷ s) = omega (arith, len_utf8_pos c, length-str_len s)

-- A cursor that has eaten more than some characters counts as many bytes at least.
eaten_at_least :
    (n k : ℕ) (s : Text) (c : Cursor)
    → c.initial_len ≡ n + str_len s
    → LeftOf s c.chars
    → k ≤ n
    → k ≤ len_consumed c
unfolding len_consumed
eaten_at_least n k s c e (front, l) h =
    omega (arith, e, h, ap str_len l, str_len-append front c.chars)

string_token-Exact :
    (x : ℕ) (c0 : Cursor) (triple : Bool) (c : Cursor) (e : Ending)
    → marks_len triple (is_raw_mark x) ≤ len_consumed (record c { chars = e.1 })
    → marks_len false (is_raw_mark x) ≤ len_consumed (record c { chars = e.1 })
    → Exact x c0 (string_token triple c e)
unfolding string_token Exact
string_token-Exact x c0 triple c (true, rest) h k = h
string_token-Exact x c0 triple c (false, rest) h k = k

marks_len-triple : (r : Bool) → marks_len true r ≡ marks_len false r + 2
marks_len-triple true = refl
marks_len-triple false = refl

-- A string whose opening mark took so many bytes.
module _ (x q n : ℕ) (c0 : Cursor) (h : marks_len false (is_raw_mark x) ≤ n) where
  single-Exact :
      (s : Text)
      → Exact x c0 (
          string_token false
            (record { initial_len = n + str_len s; chars = s })
            (quoted_loop false q s))
  unfolding Ends
  single-Exact s =
      let c : Cursor = record { initial_len = n + str_len s; chars = s } in
      let e : Ending = quoted_loop false q s in
      let k : marks_len false (is_raw_mark x) ≤ len_consumed (record c { chars = e.1 }) =
        eaten_at_least n (marks_len false (is_raw_mark x)) s (record c { chars = e.1 }) refl
          (Ends-quoted_loop false q s) h in
      string_token-Exact x c0 false c e k k

  triple-Exact :
      (a b : ℕ) (s : Text)
      → Exact x c0 (
          string_token true
            (record { initial_len = n + str_len (a ∷ b ∷ s); chars = a ∷ b ∷ s })
            (quoted_loop true q s))
  unfolding Ends str_len
  triple-Exact a b s =
      let c : Cursor = record { initial_len = n + str_len (a ∷ b ∷ s); chars = a ∷ b ∷ s } in
      let e : Ending = quoted_loop true q s in
      let c' : Cursor = record c { chars = e.1 } in
      let m : ℕ = marks_len false (is_raw_mark x) + 2 in
      let k : m ≤ len_consumed c' =
        eaten_at_least (n + len_utf8 a + len_utf8 b) m s c' (omega arith)
          (Ends-quoted_loop true q s) (omega (arith, h, len_utf8_pos a, len_utf8_pos b)) in
      string_token-Exact x c0 true c e (omega (arith, k, marks_len-triple (is_raw_mark x)))
        (omega (arith, k))

  eat_quoted_string-Exact :
      (s : Text)
      → (q ≡ b'\'') ⊎ (q ≡ b'"')
      → Exact x c0 (eat_quoted_string q (record { initial_len = n + str_len s; chars = s }))
  unfolding eat_quoted_string peek peek1th bump
  eat_quoted_string-Exact [] hq =
      if_case (Exact x c0) (q == eof_char && q == eof_char) (λ e. absurd (ground (arith, hq, e)))
        (λ _. single-Exact [])
  eat_quoted_string-Exact (a ∷ []) hq =
      if_case (Exact x c0) (q == a && q == eof_char) (λ e. absurd (ground (arith, hq, e)))
        (λ _. single-Exact (a ∷ []))
  eat_quoted_string-Exact (a ∷ b ∷ s) hq =
      if_lem (Exact x c0) (q == a && q == b) (triple-Exact a b s) (single-Exact (a ∷ b ∷ s))

quote_of_test : (q : ℕ) → (q == b'\'' || q == b'"') ≡ true → (q ≡ b'\'') ⊎ (q ≡ b'"')
quote_of_test q e = ground (arith, e)

marks_len-le : (r : Bool) → marks_len false r ≤ 2
marks_len-le true = omega arith
marks_len-le false = omega arith

raw_string-Exact :
    (x y : ℕ) (s : Text) (c0 : Cursor)
    → (y ≡ b'\'') ⊎ (y ≡ b'"')
    → Exact x c0 (eat_quoted_string y (bump (after_first x (y ∷ s))))
unfolding bump str_len
raw_string-Exact x y s c0 hy =
    subst (λ i. Exact x c0 (eat_quoted_string y (record { initial_len = i; chars = s })))
      {x = len_utf8 x + len_utf8 y + str_len s} (omega arith)
      (eat_quoted_string-Exact x y (len_utf8 x + len_utf8 y) c0
        (omega (arith, marks_len-le (is_raw_mark x), len_utf8_pos x, len_utf8_pos y)) s hy)

raw-Exact :
    (x : ℕ) (s : Text) (c0 : Cursor)
    → Exact x c0 (
        if first_or_eof s == b'\'' || first_or_eof s == b'"'
        then eat_quoted_string (first_or_eof s) (bump (after_first x s))
        else (TokenKind.unknown, after_first x s))
unfolding Exact
raw-Exact x [] c0 = tt
raw-Exact x (y ∷ s) c0 =
    if_case (Exact x c0) (y == b'\'' || y == b'"')
      (λ e. raw_string-Exact x y s c0 (quote_of_test y e)) (λ _. tt)

plain_string-Exact :
    (x : ℕ) (s : Text) (c0 : Cursor)
    → is_raw_mark x ≡ false
    → (x ≡ b'\'') ⊎ (x ≡ b'"')
    → Exact x c0 (eat_quoted_string x (after_first x s))
unfolding str_len
plain_string-Exact x s c0 e hx =
    eat_quoted_string-Exact x x (len_utf8 x) c0
      (omega (arith, len_utf8_pos x, ap (λ r. marks_len false r) e)) s hx

pub eat_string-Exact :
    (x : ℕ) (s : Text) (c0 : Cursor) → Exact x c0 (eat_string x (after_first x s))
unfolding eat_string peek Exact
eat_string-Exact x s c0 =
    if_case (Exact x c0) (x == b'r' || x == b'R') (λ _. raw-Exact x s c0)
      (λ r.
        if_case (Exact x c0) (x == b'\'' || x == b'"')
          (λ e. plain_string-Exact x s c0 r (quote_of_test x e)) (λ _. tt))
