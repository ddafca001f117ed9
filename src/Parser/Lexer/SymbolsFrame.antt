-- ===== src/Parser/Lexer/SymbolsFrame.antt =====
-- What making one token changes of the lexer: the text and the indents stay, the position does not go
-- back, and the delimiters follow the token.
use kclvm.Prelude.{
  ℕ, ◌+◌, ◌≤◌, ◌≡◌, refl, ap, sym, ◌∙◌, Bool, true, false, List, [], ◌∷◌, Option, none, some, Text,
  codes, arith, text_eq,
}
use kclvm.Lexer.Kind
use kclvm.Lexer.Eats.{if_lem}
use kclvm.Parser.Token.{TokenKind, CommentKind, BinOpToken, UnaryOpToken, DelimToken}
use kclvm.Parser.Lexer.Run.{Gives, Gives-bind}
use kclvm.Parser.Lexer.State.{Lexer, span_error, str_from, str_from_to, has_next_token}
use kclvm.Parser.Lexer.Literal.{lex_literal}
use kclvm.Parser.Lexer.LiteralFrame.{
  span_error-OnlyErrors, OnlyErrors, Any, Keeps, str_from_to-Gives, lex_literal-Gives,
}
use kclvm.Parser.Lexer.Symbols.{
  Made, skips, open_token, same_delim, close_with, close_token, minus_or_arrow, lex_token,
}
use kclvm.Parser.Lexer.Nesting.{bracket_step}

-- The brackets that a stack of delimiters holds open.
abbrev pub opened : List TokenKind → List DelimToken
opened [] = []
opened (TokenKind.open_delim d ∷ ks) = d ∷ opened ks
opened (k ∷ ks) = opened ks

-- Neither an indent nor a dedent, nor the end.
unfoldable pub plain_kind : TokenKind → Bool
plain_kind TokenKind.indent = false
plain_kind TokenKind.dedent = false
plain_kind TokenKind.eof = false
plain_kind _ = true

abbrev pub Follows : List DelimToken → List DelimToken → Option TokenKind → Type 0
Follows ds ds' none = ds' ≡ ds
Follows ds ds' (some k) = (bracket_step ds k ≡ some ds') × (plain_kind k ≡ true)

abbrev pub Makes : Lexer → Made → Type 0
Makes lx (o, lx') =
    (lx'.src ≡ lx.src)
    × (lx'.start_pos ≡ lx.start_pos)
    × (lx'.indents ≡ lx.indents)
    × (lx.pos ≤ lx'.pos)
    × Follows (opened lx.delims) (opened lx'.delims) o

-- A token that is no bracket, with a lexer that has other errors.
abbrev NoBracket : TokenKind → Type 0
NoBracket k = (plain_kind k ≡ true) × ((ds : List DelimToken) → bracket_step ds k ≡ some ds)

Makes-errors :
    (k : TokenKind) (lx lx' : Lexer) → NoBracket k → OnlyErrors lx lx' → Makes lx (some k, lx')
Makes-errors k lx lx' h e = (
  ap (λ (l : Lexer). l.src) e,
  ap (λ (l : Lexer). l.start_pos) e,
  ap (λ (l : Lexer). l.indents) e,
  omega (arith, ap (λ (l : Lexer). l.pos) e),
  (h.1 (opened lx.delims) ∙ ap (λ (l : Lexer). some (opened l.delims)) (sym e), h.0),
)

Makes-here : (k : TokenKind) (lx : Lexer) → NoBracket k → Makes lx (some k, lx)
Makes-here k lx h = Makes-errors k lx lx h refl

skips-Makes : (msg : Text) (start : ℕ) (lx : Lexer) → Gives (Makes lx) (skips msg start lx)
unfolding span_error
skips-Makes msg start lx = (refl, refl, refl, omega arith, refl)

nothing-Makes : (lx : Lexer) → Makes lx (none, lx)
nothing-Makes lx = (refl, refl, refl, omega arith, refl)

open_token-Makes : (d : DelimToken) (lx : Lexer) → Gives (Makes lx) (open_token d lx)
unfolding open_token bracket_step plain_kind
open_token-Makes d lx = (refl, refl, refl, omega arith, (refl, refl))

same_delim_refl : (d : DelimToken) → same_delim d d ≡ true
same_delim_refl DelimToken.paren = refl
same_delim_refl DelimToken.bracket = refl
same_delim_refl DelimToken.brace = refl
same_delim_refl DelimToken.no_delim = refl

-- What was opened last is closed, whatever the text has.
close_with-Makes :
    (d e : DelimToken) (ds : List TokenKind) (msg : Text) (start : ℕ) (lx : Lexer)
    → lx.delims ≡ TokenKind.open_delim e ∷ ds
    → Gives (Makes lx) (close_with d e msg start (record lx { delims = ds }))
unfolding bracket_step plain_kind span_error
close_with-Makes d e ds msg start lx h =
    let lx0 : Lexer = record lx { delims = ds } in
    if_lem (λ (lx1 : Lexer). Makes lx (some (TokenKind.close_delim e), lx1)) (same_delim d e)
      (refl, refl, refl, omega arith, (rw (h, same_delim_refl e), refl))
      (refl, refl, refl, omega arith, (rw (h, same_delim_refl e), refl))

close_token-Makes :
    (d : DelimToken) (msg : Text) (start : ℕ) (ks : List TokenKind) (lx : Lexer)
    → lx.delims ≡ ks
    → Gives (Makes lx) (close_token d msg start ks lx)
unfolding close_token bracket_step plain_kind span_error
close_token-Makes d msg start [] lx h = (
  refl,
  refl,
  refl,
  omega arith,
  (
    ap (λ ks. bracket_step (opened ks) (TokenKind.close_delim d)) h
        ∙ ap (λ ks. some (opened ks)) (sym h),
    refl,
  ),
)
close_token-Makes d msg start (TokenKind.open_delim DelimToken.paren ∷ ds) lx h =
    close_with-Makes d DelimToken.paren ds msg start lx h
close_token-Makes d msg start (TokenKind.open_delim DelimToken.bracket ∷ ds) lx h =
    close_with-Makes d DelimToken.bracket ds msg start lx h
close_token-Makes d msg start (TokenKind.open_delim DelimToken.brace ∷ ds) lx h =
    close_with-Makes d DelimToken.brace ds msg start lx h
close_token-Makes d msg start (TokenKind.open_delim DelimToken.no_delim ∷ ds) lx h = tt
close_token-Makes d msg start (k ∷ ds) lx h = tt

minus_or_arrow-Makes : (start : ℕ) (lx : Lexer) → Gives (Makes lx) (minus_or_arrow start lx)
unfolding minus_or_arrow bracket_step plain_kind
minus_or_arrow-Makes start lx =
    let minus : Makes lx (some (TokenKind.bin_op BinOpToken.minus), lx) =
      Makes-here (TokenKind.bin_op BinOpToken.minus) lx (refl, λ ds. refl) in
    if_lem (Gives (Makes lx)) (has_next_token lx (start + 1) (start + 2))
      (Gives-bind Any (Makes lx) (str_from_to lx (start + 1) (start + 2)) _
        (str_from_to-Gives lx (start + 1) (start + 2))
        (λ s t.
          if_lem (Gives (Makes lx)) (text_eq s (codes ">"))
            (refl, refl, refl, omega arith, (refl, refl)) minus))
      minus

pub lex_token-Makes :
    (character : Text → Option ℕ) (kind : Kind.TokenKind) (start : ℕ) (lx : Lexer)
    → Gives (Makes lx) (lex_token character kind start lx)
unfolding lex_token plain_kind bracket_step str_from
lex_token-Makes character (Kind.TokenKind.line_comment d) start lx =
    Gives-bind Any (Makes lx) (str_from_to lx start lx.pos) _ (str_from_to-Gives lx start lx.pos)
      (λ s t. Makes-here (TokenKind.doc_comment (CommentKind.line s)) lx (refl, λ ds. refl))
lex_token-Makes character Kind.TokenKind.newline start lx =
    (refl, refl, refl, omega arith, (refl, refl))
lex_token-Makes character Kind.TokenKind.tab start lx = nothing-Makes lx
lex_token-Makes character Kind.TokenKind.space start lx = nothing-Makes lx
lex_token-Makes character Kind.TokenKind.carriage_return start lx = nothing-Makes lx
lex_token-Makes character Kind.TokenKind.whitespace start lx = nothing-Makes lx
lex_token-Makes character Kind.TokenKind.line_continue start lx = nothing-Makes lx
lex_token-Makes character Kind.TokenKind.ident start lx =
    Gives-bind Any (Makes lx) (str_from_to lx start lx.pos) _ (str_from_to-Gives lx start lx.pos)
      (λ s t. Makes-here (TokenKind.ident s) lx (refl, λ ds. refl))
lex_token-Makes character (Kind.TokenKind.literal k n) start lx =
    Gives-bind (Keeps lx) (Makes lx) (lex_literal character start (start + n) k lx) _
      (lex_literal-Gives character start (start + n) k lx)
      (λ r e. Makes-errors (TokenKind.literal r.0) lx r.1 (refl, λ ds. refl) e)
lex_token-Makes character Kind.TokenKind.bang start lx =
    Makes-errors (TokenKind.unary_op UnaryOpToken.u_not) lx
      (span_error (codes "invalid token '!', consider using 'not'") start lx.pos lx)
      (refl, λ ds. refl) (span_error-OnlyErrors _ start lx.pos lx)
lex_token-Makes character Kind.TokenKind.minus start lx = minus_or_arrow-Makes start lx
lex_token-Makes character Kind.TokenKind.open_paren start lx = open_token-Makes DelimToken.paren lx
lex_token-Makes character Kind.TokenKind.open_brace start lx = open_token-Makes DelimToken.brace lx
lex_token-Makes character Kind.TokenKind.open_bracket start lx =
    open_token-Makes DelimToken.bracket lx
lex_token-Makes character Kind.TokenKind.close_paren start lx =
    close_token-Makes DelimToken.paren _ start lx.delims lx refl
lex_token-Makes character Kind.TokenKind.close_brace start lx =
    close_token-Makes DelimToken.brace _ start lx.delims lx refl
lex_token-Makes character Kind.TokenKind.close_bracket start lx =
    close_token-Makes DelimToken.bracket _ start lx.delims lx refl
lex_token-Makes character Kind.TokenKind.invalid_line_continue start lx = skips-Makes _ start lx
lex_token-Makes character (Kind.TokenKind.block_comment d b) start lx = skips-Makes _ start lx
lex_token-Makes character Kind.TokenKind.invalid_ident start lx = skips-Makes _ start lx
lex_token-Makes character Kind.TokenKind.semi start lx = skips-Makes _ start lx
lex_token-Makes character Kind.TokenKind.dot_dot start lx = skips-Makes _ start lx
lex_token-Makes character Kind.TokenKind.pound start lx = skips-Makes _ start lx
lex_token-Makes character Kind.TokenKind.unknown start lx = skips-Makes _ start lx
lex_token-Makes character kind start lx = (refl, refl, refl, omega arith, (refl, refl))
