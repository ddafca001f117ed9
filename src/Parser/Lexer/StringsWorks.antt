-- ===== src/Parser/Lexer/StringsWorks.antt =====
-- On a text of ASCII characters, a string inside the text is read without a panic.
use kclvm.Prelude.{
  ℕ, ◌+◌, ◌-◌, ◌≤◌, ◌<◌, ◌≡◌, inl, refl, sym, ap, subst, Bool, false, not, ◌||◌, Option, Text, [],
  ◌∷◌, arith, ltb, ◌==◌, if◌then◌else◌, codes, get_elem?,
}
use kclvm.Lexer.Cursor.{str_len}
use kclvm.Lexer.Eats.{if_lem, if_case}
use kclvm.Lexer.Exact.{is_raw_mark, marks_len}
use kclvm.Parser.Lexer.Run.{
  returned, Works, Works-bind, Works-returned, Works-both, Works-imp, Works-or_panic,
}
use kclvm.Parser.Lexer.State.{Lexer, slice, as_bytes, src_index, span_error, char_from, str_from_to}
use kclvm.Parser.Lexer.AsciiSlices.{IsAscii, Ascii, slice-Ascii, byte-Ascii}
use kclvm.Parser.Lexer.Strings.{str_content_eval}
use kclvm.Parser.Lexer.ScalarValues.{IsScalar, Scalars, IfSome}
use kclvm.Parser.Lexer.ScalarStrings.{str_content_eval-Scalars}
use kclvm.Parser.Lexer.LiteralFrame.{
  OnlyErrors, Any, Keeps, span_error-OnlyErrors, string_value-Gives,
}
use kclvm.Parser.Lexer.Literal.{
  sub_pos, quote_of, quote_offset, content_end_of, string_value, lex_string,
}

-- Two positions in order inside a text of ASCII characters that starts at a position.
abbrev pub Span : Text → ℕ → ℕ → ℕ → Type 0
Span src start_pos a b = Ascii src × (start_pos ≤ a) × (a ≤ b) × (b ≤ start_pos + str_len src)

abbrev pub Inside : Lexer → ℕ → ℕ → Type 0
Inside lx a b = Span lx.src lx.start_pos a b

-- Errors do not move the text.
pub Inside-Keeps : (lx lx' : Lexer) (a b : ℕ) → OnlyErrors lx lx' → Inside lx a b → Inside lx' a b
Inside-Keeps lx lx' a b e h = subst (λ (l : Lexer). Inside l a b) (sym e) h

pub str_from_to-Works : (lx : Lexer) (a b : ℕ) → Inside lx a b → Works Ascii (str_from_to lx a b)
unfolding str_from_to src_index
str_from_to-Works lx a b (ascii, s, l, e) =
    let (t, k, h) =
      slice-Ascii lx.src (a - lx.start_pos) (b - lx.start_pos) ascii (omega (arith, s, l))
        (omega (arith, s, l, e)) in
    Works-or_panic Ascii (slice lx.src (a - lx.start_pos) (b - lx.start_pos)) t k h

char_from-Works : (lx : Lexer) (a b : ℕ) → Inside lx a b → a < b → Works IsAscii (char_from lx a)
unfolding char_from src_index
char_from-Works lx a b (ascii, s, l, e) h =
    let (c, k, i) = byte-Ascii (a - lx.start_pos) lx.src ascii (omega (arith, s, h, e)) in
    Works-or_panic IsAscii (get_elem? (as_bytes lx.src) (a - lx.start_pos)) c k i

sub_pos-Works : (a b : ℕ) → b ≤ a → Works (λ d. d + b ≡ a) (sub_pos a b)
unfolding sub_pos
sub_pos-Works a b h =
    if_case (Works (λ d. d + b ≡ a)) (ltb a b) (λ e. absurd (ground (arith, e, h)))
      (λ _. omega (arith, h))

content_end_le :
    (t triple raw : Bool) (end : ℕ)
    → content_end_of t triple raw end ≤ end + quote_offset triple raw
content_end_le t triple raw end = ground arith

-- Whether the string is raw, and that its quote is of ASCII.
quote_of-Works :
    (lx : Lexer) (start x n : ℕ)
    → Inside lx start (start + n)
    → IsAscii x
    → marks_len false (is_raw_mark x) ≤ n
    → Works (λ r. (r.0 ≡ is_raw_mark x) × IsAscii r.2) (quote_of lx start x)
quote_of-Works lx start x n h i m =
    if_case (Works (λ r. (r.0 ≡ is_raw_mark x) × IsAscii r.2)) (x == b'r' || x == b'R')
      (λ e.
        let two : 2 ≤ n = omega (arith, m, ap (λ r. marks_len false r) e) in
        Works-bind IsAscii (λ r. (r.0 ≡ is_raw_mark x) × IsAscii r.2) (char_from lx (start + 1)) _
          (char_from-Works lx (start + 1) (start + n)
            (h.0, omega (arith, h.1), omega (arith, two), h.3) (omega (arith, two)))
          (λ q j. (sym e, j)))
      (λ e. (sym e, i))

Ascii-Scalars : (s : Text) → Ascii s → Scalars s
Ascii-Scalars [] h = tt
Ascii-Scalars (c ∷ s) h = (inl (omega (arith, h.0)), Ascii-Scalars s h.1)

marks_len-single : (t r : Bool) → marks_len false r ≤ marks_len t r
marks_len-single t r = ground arith

-- Names that stand for Unicode scalar values.
module _ (character : Text → Option ℕ) (names : (s : Text) → IfSome IsScalar (character s)) where
  string_value-Works :
      (q : ℕ) (triple is_raw : Bool) (a b : ℕ) (lx : Lexer)
      → IsAscii q
      → Ascii lx.src
      → lx.start_pos ≤ a
      → b ≤ lx.start_pos + str_len lx.src
      → Works (Keeps lx) (string_value character q triple is_raw a b lx)
  unfolding string_value
  string_value-Works q triple is_raw a b lx i h s e =
      Works-imp _ (Keeps lx) (string_value character q triple is_raw a b lx) (λ r p. p.0)
        (Works-both (Keeps lx) Any (string_value character q triple is_raw a b lx)
          (string_value-Gives character q triple is_raw a b lx)
          (if_case (Works Any) (ltb b a) (λ _. tt)
            (λ k.
              Works-bind Ascii Any (str_from_to lx a b) _
                (str_from_to-Works lx a b (h, s, ground (arith, k), e))
                (λ content ascii.
                  let (v, f, j) =
                    str_content_eval-Scalars character names q (inl (omega (arith, i))) false triple
                      is_raw content (Ascii-Scalars content ascii) in
                  Works-returned Any (str_content_eval character q triple false is_raw content) _ v
                    f tt))))

  -- A string of `n` bytes, whose first byte is `x`.
  pub lex_string-Works :
      (start n x : ℕ) (terminated triple : Bool) (lx : Lexer)
      → Inside lx start (start + n)
      → char_from lx start ≡ returned x
      → IsAscii x
      → marks_len triple (is_raw_mark x) ≤ n
      → Works Any (lex_string character start (start + n) terminated triple lx)
  unfolding lex_string
  lex_string-Works start n x terminated triple lx h e i m =
      Works-returned Any (char_from lx start) _ x e (
        Works-bind (λ r. (r.0 ≡ is_raw_mark x) × IsAscii r.2) Any (quote_of lx start x) _
          (quote_of-Works lx start x n h i
            (omega (arith, m, marks_len-single triple (is_raw_mark x))))
          (λ q k.
            let lx1 =
              if not terminated
              then span_error (codes "unterminated string") q.1 lx.pos lx
              else lx in
            let same : OnlyErrors lx lx1 =
              if_lem (OnlyErrors lx) (not terminated) (span_error-OnlyErrors _ q.1 lx.pos lx)
                refl in
            let inside : Inside lx1 start (start + n) =
              Inside-Keeps lx lx1 start (start + n) same h in
            let offset = quote_offset triple q.0 in
            let enough : offset ≤ n = subst (λ r. quote_offset triple r ≤ n) (sym k.0) m in
            Works-bind (λ d. d + offset ≡ start + n) Any (sub_pos (start + n) offset) _
              (sub_pos-Works (start + n) offset (omega (arith, enough)))
              (λ end d.
                let content_end = content_end_of terminated triple q.0 end in
                Works-bind (Keeps lx1) Any
                  (string_value character q.2 triple q.0 (start + offset) content_end lx1) _
                  (string_value-Works q.2 triple q.0 (start + offset) content_end lx1 k.1 inside.0
                    (omega (arith, inside.1))
                    (omega (arith, inside.3, d, content_end_le terminated triple q.0 end)))
                  (λ r l.
                    Works-bind Ascii Any (str_from_to r.1 start (start + n)) _
                      (str_from_to-Works r.1 start (start + n)
                        (Inside-Keeps lx1 r.1 start (start + n) l inside))
                      (λ _ _. tt)))))
