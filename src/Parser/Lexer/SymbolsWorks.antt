-- ===== src/Parser/Lexer/SymbolsWorks.antt =====
-- On a text of ASCII characters one token is made without a panic, and the lexer stays sound.
use kclvm.Prelude.{
  ℕ, ◌+◌, ◌-◌, ◌≤◌, ◌≡◌, refl, sym, subst, Bool, true, false, List, [], ◌∷◌, Option, Text, codes,
  arith, text_eq,
}
use kclvm.Prelude.Monad.{All}
use kclvm.Lexer.Kind
use kclvm.Lexer.Cursor.{str_len}
use kclvm.Lexer.FirstToken.{Fits}
use kclvm.Lexer.Eats.{if_lem, if_case}
use kclvm.Parser.Token.{TokenKind, DelimToken}
use kclvm.Parser.Lexer.Run.{returned, Works, Works-bind}
use kclvm.Parser.Lexer.State.{
  Lexer, src_index, span_error, char_from, str_from, str_from_to, has_next_token,
}
use kclvm.Parser.Lexer.AsciiSlices.{IsAscii, Ascii, len_utf8-IsAscii}
use kclvm.Parser.Lexer.ScalarValues.{IsScalar, IfSome}
use kclvm.Parser.Lexer.Literal.{lex_literal}
use kclvm.Parser.Lexer.LiteralFrame.{OnlyErrors, Keeps, span_error-OnlyErrors}
use kclvm.Parser.Lexer.StringsWorks.{str_from_to-Works}
use kclvm.Parser.Lexer.LiteralWorks.{lex_literal-Works}
use kclvm.Parser.Lexer.Symbols.{
  Made, same_delim, close_with, open_token, close_token, minus_or_arrow, lex_token,
}

-- A bracket that can be closed.
abbrev pub is_open : TokenKind → Bool
is_open (TokenKind.open_delim DelimToken.paren) = true
is_open (TokenKind.open_delim DelimToken.bracket) = true
is_open (TokenKind.open_delim DelimToken.brace) = true
is_open k = false

abbrev pub IsOpen : TokenKind → Type 0
IsOpen k = is_open k ≡ true

-- The text is of ASCII, the position is in it, and the stack holds brackets.
abbrev pub Sound : Lexer → Type 0
Sound lx =
    Ascii lx.src
    × (lx.start_pos ≤ lx.pos)
    × (lx.pos ≤ lx.start_pos + str_len lx.src)
    × All IsOpen lx.delims

abbrev pub SoundMade : Made → Type 0
SoundMade m = Sound m.1

Sound-errors : (lx lx' : Lexer) → OnlyErrors lx lx' → Sound lx → Sound lx'
Sound-errors lx lx' e h = subst Sound (sym e) h

close_with-Works :
    (d e : DelimToken) (msg : Text) (start : ℕ) (lx : Lexer)
    → Sound lx
    → Works SoundMade (close_with d e msg start lx)
close_with-Works d e msg start lx h =
    if_lem Sound (same_delim d e) h (
      Sound-errors lx (span_error msg start lx.pos lx) (span_error-OnlyErrors msg start lx.pos lx)
        h)

close_token-Works :
    (d : DelimToken) (msg : Text) (start : ℕ) (ks : List TokenKind) (lx : Lexer)
    → Sound lx
    → All IsOpen ks
    → Works SoundMade (close_token d msg start ks lx)
unfolding close_token span_error
close_token-Works d msg start [] lx h o = h
close_token-Works d msg start (TokenKind.open_delim DelimToken.paren ∷ ds) lx h o =
    close_with-Works d DelimToken.paren msg start (record lx { delims = ds }) (h.0, h.1, h.2, o.1)
close_token-Works d msg start (TokenKind.open_delim DelimToken.bracket ∷ ds) lx h o =
    close_with-Works d DelimToken.bracket msg start (record lx { delims = ds }) (h.0, h.1, h.2, o.1)
close_token-Works d msg start (TokenKind.open_delim DelimToken.brace ∷ ds) lx h o =
    close_with-Works d DelimToken.brace msg start (record lx { delims = ds }) (h.0, h.1, h.2, o.1)
close_token-Works d msg start (TokenKind.open_delim DelimToken.no_delim ∷ ds) lx h o =
    absurd (let clash : false ≡ true = o.0 in cc)
close_token-Works d msg start (k ∷ ds) lx h o = absurd (let clash : false ≡ true = o.0 in cc)

open_token-Works :
    (d : DelimToken) (lx : Lexer)
    → IsOpen (TokenKind.open_delim d)
    → Sound lx
    → Works SoundMade (open_token d lx)
unfolding open_token
open_token-Works d lx o h = (h.0, h.1, h.2, (o, h.3))

next_in_text :
    (start : ℕ) (lx : Lexer)
    → lx.start_pos ≤ start
    → has_next_token lx (start + 1) (start + 2) ≡ true
    → start + 2 ≤ lx.start_pos + str_len lx.src
unfolding has_next_token src_index
next_in_text start lx l e = ground (arith, l, e)

minus_or_arrow-Works :
    (start : ℕ) (lx : Lexer)
    → lx.start_pos ≤ start
    → lx.pos ≡ start + 1
    → Sound lx
    → Works SoundMade (minus_or_arrow start lx)
unfolding minus_or_arrow
minus_or_arrow-Works start lx l p h =
    if_case (Works SoundMade) (has_next_token lx (start + 1) (start + 2))
      (λ e.
        let room : start + 2 ≤ lx.start_pos + str_len lx.src = next_in_text start lx l e in
        Works-bind Ascii SoundMade (str_from_to lx (start + 1) (start + 2)) _
          (str_from_to-Works lx (start + 1) (start + 2) (h.0, omega (arith, l), omega arith, room))
          (λ s _.
            if_lem (Works SoundMade) (text_eq s (codes ">"))
              (h.0, omega (arith, l, p), omega (arith, p, room), h.3) h))
      (λ _. h)

pub lex_token-Works :
    (character : Text → Option ℕ)
    → ((s : Text) → IfSome IsScalar (character s))
    → (kind : Kind.TokenKind) (start x : ℕ) (lx : Lexer) → lx.start_pos ≤ start
    → start ≤ lx.pos
    → char_from lx start ≡ returned x
    → IsAscii x
    → Fits x (lx.pos - start) kind
    → Sound lx
    → Works SoundMade (lex_token character kind start lx)
unfolding lex_token str_from Fits span_error
lex_token-Works character names (Kind.TokenKind.line_comment d) start x lx s l e i f h =
    Works-bind Ascii SoundMade (str_from_to lx start lx.pos) _
      (str_from_to-Works lx start lx.pos (h.0, s, l, h.2)) (λ _ _. h)
lex_token-Works character names Kind.TokenKind.ident start x lx s l e i f h =
    Works-bind Ascii SoundMade (str_from_to lx start lx.pos) _
      (str_from_to-Works lx start lx.pos (h.0, s, l, h.2)) (λ _ _. h)
lex_token-Works character names (Kind.TokenKind.literal k n) start x lx s l e i f h =
    Works-bind (Keeps lx) SoundMade (lex_literal character start (start + n) k lx) _
      (lex_literal-Works character names start n x k lx (h.0, s, l, h.2) e i f)
      (λ r k. Sound-errors lx r.1 k h)
lex_token-Works character names Kind.TokenKind.minus start x lx s l e i f h =
    minus_or_arrow-Works start lx s (omega (arith, f, len_utf8-IsAscii x i, l)) h
lex_token-Works character names Kind.TokenKind.open_paren start x lx s l e i f h =
    open_token-Works DelimToken.paren lx refl h
lex_token-Works character names Kind.TokenKind.open_brace start x lx s l e i f h =
    open_token-Works DelimToken.brace lx refl h
lex_token-Works character names Kind.TokenKind.open_bracket start x lx s l e i f h =
    open_token-Works DelimToken.bracket lx refl h
lex_token-Works character names Kind.TokenKind.close_paren start x lx s l e i f h =
    close_token-Works DelimToken.paren _ start lx.delims lx h h.3
lex_token-Works character names Kind.TokenKind.close_brace start x lx s l e i f h =
    close_token-Works DelimToken.brace _ start lx.delims lx h h.3
lex_token-Works character names Kind.TokenKind.close_bracket start x lx s l e i f h =
    close_token-Works DelimToken.bracket _ start lx.delims lx h h.3
lex_token-Works character names kind start x lx s l e i f h = h
