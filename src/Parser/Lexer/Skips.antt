-- ===== src/Parser/Lexer/Skips.antt =====
-- Which texts the lexer skips: blanks, which do not end the count of an indent, and others, which do.
use kclvm.Prelude.{
  ℕ, ◌+◌, ◌≡◌, refl, Bool, true, false, not, List, [], ◌∷◌, Option, none, some, Text, codes,
  text_eq,
}
use kclvm.Lexer.Kind
use kclvm.Lexer.Eats.{if_lem}
use kclvm.Parser.Token.{TokenKind, DelimToken}
use kclvm.Parser.Lexer.Run.{Gives, Gives-bind}
use kclvm.Parser.Lexer.State.{Lexer, str_from, str_from_to, has_next_token}
use kclvm.Parser.Lexer.Literal.{lex_literal}
use kclvm.Parser.Lexer.LiteralFrame.{Any, Keeps, str_from_to-Gives, lex_literal-Gives}
use kclvm.Parser.Lexer.Indent.{IndentOrDedents, at_line_start, lex_indent_context}
use kclvm.Parser.Lexer.Symbols.{Made, open_token, close_token, minus_or_arrow, lex_token}

-- The kinds that make no token and end the count of an indent.
unfoldable pub skipped : Kind.TokenKind → Bool
skipped Kind.TokenKind.carriage_return = true
skipped Kind.TokenKind.whitespace = true
skipped Kind.TokenKind.line_continue = true
skipped Kind.TokenKind.invalid_line_continue = true
skipped (Kind.TokenKind.block_comment d b) = true
skipped Kind.TokenKind.invalid_ident = true
skipped Kind.TokenKind.semi = true
skipped Kind.TokenKind.dot_dot = true
skipped Kind.TokenKind.pound = true
skipped Kind.TokenKind.unknown = true
skipped _ = false

unfoldable pub blank : Kind.TokenKind → Bool
blank Kind.TokenKind.tab = true
blank Kind.TokenKind.space = true
blank _ = false

-- A token was made.
abbrev pub IsMade : Made → Type 0
IsMade (none, lx) = ⊥
IsMade (some k, lx) = Unit

close_token-IsMade :
    (d : DelimToken) (msg : Text) (start : ℕ) (ks : List TokenKind) (lx : Lexer)
    → Gives IsMade (close_token d msg start ks lx)
unfolding close_token
close_token-IsMade d msg start [] lx = tt
close_token-IsMade d msg start (TokenKind.open_delim DelimToken.paren ∷ ds) lx = tt
close_token-IsMade d msg start (TokenKind.open_delim DelimToken.bracket ∷ ds) lx = tt
close_token-IsMade d msg start (TokenKind.open_delim DelimToken.brace ∷ ds) lx = tt
close_token-IsMade d msg start (TokenKind.open_delim DelimToken.no_delim ∷ ds) lx = tt
close_token-IsMade d msg start (k ∷ ds) lx = tt

minus_or_arrow-IsMade : (start : ℕ) (lx : Lexer) → Gives IsMade (minus_or_arrow start lx)
unfolding minus_or_arrow
minus_or_arrow-IsMade start lx =
    if_lem (Gives IsMade) (has_next_token lx (start + 1) (start + 2))
      (Gives-bind Any IsMade (str_from_to lx (start + 1) (start + 2)) _
        (str_from_to-Gives lx (start + 1) (start + 2))
        (λ s t. if_lem (Gives IsMade) (text_eq s (codes ">")) tt tt))
      tt

pub lex_token-IsMade :
    (character : Text → Option ℕ) (kind : Kind.TokenKind) (start : ℕ) (lx : Lexer)
    → skipped kind ≡ false
    → blank kind ≡ false
    → Gives IsMade (lex_token character kind start lx)
unfolding lex_token skipped blank str_from open_token
lex_token-IsMade character (Kind.TokenKind.line_comment d) start lx e b =
    Gives-bind Any IsMade (str_from_to lx start lx.pos) _ (str_from_to-Gives lx start lx.pos)
      (λ s t. t)
lex_token-IsMade character Kind.TokenKind.tab start lx e b = cc
lex_token-IsMade character Kind.TokenKind.space start lx e b = cc
lex_token-IsMade character Kind.TokenKind.carriage_return start lx e b = cc
lex_token-IsMade character Kind.TokenKind.whitespace start lx e b = cc
lex_token-IsMade character Kind.TokenKind.line_continue start lx e b = cc
lex_token-IsMade character Kind.TokenKind.invalid_line_continue start lx e b = cc
lex_token-IsMade character (Kind.TokenKind.block_comment d c) start lx e b = cc
lex_token-IsMade character Kind.TokenKind.invalid_ident start lx e b = cc
lex_token-IsMade character Kind.TokenKind.semi start lx e b = cc
lex_token-IsMade character Kind.TokenKind.dot_dot start lx e b = cc
lex_token-IsMade character Kind.TokenKind.pound start lx e b = cc
lex_token-IsMade character Kind.TokenKind.unknown start lx e b = cc
lex_token-IsMade character Kind.TokenKind.ident start lx e b =
    Gives-bind Any IsMade (str_from_to lx start lx.pos) _ (str_from_to-Gives lx start lx.pos)
      (λ s t. t)
lex_token-IsMade character (Kind.TokenKind.literal k n) start lx e b =
    Gives-bind (Keeps lx) IsMade (lex_literal character start (start + n) k lx) _
      (lex_literal-Gives character start (start + n) k lx) (λ r h. tt)
lex_token-IsMade character Kind.TokenKind.minus start lx e b = minus_or_arrow-IsMade start lx
lex_token-IsMade character Kind.TokenKind.close_paren start lx e b =
    close_token-IsMade DelimToken.paren _ start lx.delims lx
lex_token-IsMade character Kind.TokenKind.close_brace start lx e b =
    close_token-IsMade DelimToken.brace _ start lx.delims lx
lex_token-IsMade character Kind.TokenKind.close_bracket start lx e b =
    close_token-IsMade DelimToken.bracket _ start lx.delims lx
lex_token-IsMade character kind start lx e b = tt

abbrev pub SameIndents : Lexer → Option IndentOrDedents × Lexer → Type 0
SameIndents lx r = r.1.indents ≡ lx.indents

at_line_start-blank :
    (kind : Kind.TokenKind) (lx : Lexer)
    → blank kind ≡ true
    → Gives (SameIndents lx) (at_line_start kind lx)
unfolding blank
at_line_start-blank Kind.TokenKind.tab lx b = refl
at_line_start-blank Kind.TokenKind.space lx b = refl
at_line_start-blank kind lx b = absurd (let clash : false ≡ true = b in cc)

-- A blank leaves the stack of indents.
pub lex_indent_context-blank :
    (kind : Kind.TokenKind) (lx : Lexer)
    → blank kind ≡ true
    → Gives (SameIndents lx) (lex_indent_context kind lx)
unfolding lex_indent_context
lex_indent_context-blank kind lx b =
    if_lem (Gives (SameIndents lx)) (not lx.new_line_beginning) refl (at_line_start-blank kind lx b)
