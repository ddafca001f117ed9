-- ===== src/Parser/Lexer/Symbols.antt =====
-- kclvm/parser/src/lexer/mod.rs: one token of the AST from one of kclvm/lexer.
use kclvm.Prelude.{
  ℕ, ◌+◌, Bool, true, false, List, [], ◌∷◌, Option, none, some, Text, codes, if◌then◌else◌, text_eq,
}
use kclvm.Lexer.Kind
use kclvm.Parser.Token.{TokenKind, CommentKind, UnaryOpToken, BinOpToken, BinCmpToken, DelimToken}
use kclvm.Parser.Lexer.Run.{Run, returned, panicked, ◌>>=◌}
use kclvm.Parser.Lexer.State.{Lexer, span_error, str_from, str_from_to, has_next_token}
use kclvm.Parser.Lexer.Literal.{lex_literal}

-- A token that was made, or none where the text is skipped.
abbrev pub Made : Type 0
Made = Option TokenKind × Lexer

abbrev pub makes : TokenKind → Lexer → Run Made
makes kind lx = returned (some kind, lx)

abbrev pub skips : Text → ℕ → Lexer → Run Made
skips msg start lx = returned (none, span_error msg start lx.pos lx)

-- An opening delimiter is pushed.
unfoldable pub open_token : DelimToken → Lexer → Run Made
open_token d lx =
    makes (TokenKind.open_delim d) (record lx { delims = TokenKind.open_delim d ∷ lx.delims })

abbrev pub same_delim : DelimToken → DelimToken → Bool
same_delim DelimToken.paren DelimToken.paren = true
same_delim DelimToken.bracket DelimToken.bracket = true
same_delim DelimToken.brace DelimToken.brace = true
same_delim DelimToken.no_delim DelimToken.no_delim = true
same_delim _ _ = false

-- A closing delimiter closes what was opened last, with an error where that is another one.
abbrev pub close_with : DelimToken → DelimToken → Text → ℕ → Lexer → Run Made
close_with d opened msg start lx =
    makes (TokenKind.close_delim opened)
      (if same_delim d opened then lx else span_error msg start lx.pos lx)

-- The delimiter that was popped decides, and that of the text where there was none.
unfoldable pub close_token : DelimToken → Text → ℕ → List TokenKind → Lexer → Run Made
close_token d msg start [] lx = makes (TokenKind.close_delim d) (span_error msg start lx.pos lx)
close_token d msg start (TokenKind.open_delim DelimToken.paren ∷ ds) lx =
    close_with d DelimToken.paren msg start (record lx { delims = ds })
close_token d msg start (TokenKind.open_delim DelimToken.brace ∷ ds) lx =
    close_with d DelimToken.brace msg start (record lx { delims = ds })
close_token d msg start (TokenKind.open_delim DelimToken.bracket ∷ ds) lx =
    close_with d DelimToken.bracket msg start (record lx { delims = ds })
close_token d msg start (_ ∷ ds) lx = panicked

-- A minus, or an arrow where `>` follows, which is skipped.
unfoldable pub minus_or_arrow : ℕ → Lexer → Run Made
minus_or_arrow start lx =
    if has_next_token lx (start + 1) (start + 2)
    then (str_from_to lx (start + 1) (start + 2) >>= λ next_tkn.
        if text_eq next_tkn (codes ">")
        then makes TokenKind.r_arrow (record lx { pos = lx.pos + 1 })
        else makes (TokenKind.bin_op BinOpToken.minus) lx)
    else makes (TokenKind.bin_op BinOpToken.minus) lx

module _ (character : Text → Option ℕ) where
  -- `lex_token`, at the start of the token: the position is its end.
  unfoldable pub lex_token : Kind.TokenKind → ℕ → Lexer → Run Made
  lex_token (Kind.TokenKind.line_comment d) start lx =
      str_from lx start >>= λ s. makes (TokenKind.doc_comment (CommentKind.line s)) lx
  lex_token Kind.TokenKind.newline start lx =
      makes TokenKind.newline (record lx { new_line_beginning = true })
  lex_token Kind.TokenKind.tab start lx = returned (none, lx)
  lex_token Kind.TokenKind.space start lx = returned (none, lx)
  lex_token Kind.TokenKind.carriage_return start lx = returned (none, lx)
  lex_token Kind.TokenKind.whitespace start lx = returned (none, lx)
  lex_token Kind.TokenKind.ident start lx = str_from lx start >>= λ s. makes (TokenKind.ident s) lx
  lex_token (Kind.TokenKind.literal kind suffix_start) start lx =
      lex_literal character start (start + suffix_start) kind lx >>= λ r.
      makes (TokenKind.literal r.0) r.1
  lex_token Kind.TokenKind.tilde start lx = makes (TokenKind.unary_op UnaryOpToken.u_tilde) lx
  lex_token Kind.TokenKind.bang start lx =
      makes (TokenKind.unary_op UnaryOpToken.u_not)
        (span_error (codes "invalid token '!', consider using 'not'") start lx.pos lx)
  lex_token Kind.TokenKind.minus start lx = minus_or_arrow start lx
  lex_token Kind.TokenKind.plus start lx = makes (TokenKind.bin_op BinOpToken.plus) lx
  lex_token Kind.TokenKind.star start lx = makes (TokenKind.bin_op BinOpToken.star) lx
  lex_token Kind.TokenKind.slash start lx = makes (TokenKind.bin_op BinOpToken.slash) lx
  lex_token Kind.TokenKind.percent start lx = makes (TokenKind.bin_op BinOpToken.percent) lx
  lex_token Kind.TokenKind.star_star start lx = makes (TokenKind.bin_op BinOpToken.star_star) lx
  lex_token Kind.TokenKind.slash_slash start lx = makes (TokenKind.bin_op BinOpToken.slash_slash) lx
  lex_token Kind.TokenKind.caret start lx = makes (TokenKind.bin_op BinOpToken.caret) lx
  lex_token Kind.TokenKind.and_sign start lx = makes (TokenKind.bin_op BinOpToken.and) lx
  lex_token Kind.TokenKind.or_sign start lx = makes (TokenKind.bin_op BinOpToken.or) lx
  lex_token Kind.TokenKind.lt_lt start lx = makes (TokenKind.bin_op BinOpToken.shl) lx
  lex_token Kind.TokenKind.gt_gt start lx = makes (TokenKind.bin_op BinOpToken.shr) lx
  lex_token Kind.TokenKind.plus_eq start lx = makes (TokenKind.bin_op_eq BinOpToken.plus) lx
  lex_token Kind.TokenKind.minus_eq start lx = makes (TokenKind.bin_op_eq BinOpToken.minus) lx
  lex_token Kind.TokenKind.star_eq start lx = makes (TokenKind.bin_op_eq BinOpToken.star) lx
  lex_token Kind.TokenKind.slash_eq start lx = makes (TokenKind.bin_op_eq BinOpToken.slash) lx
  lex_token Kind.TokenKind.percent_eq start lx = makes (TokenKind.bin_op_eq BinOpToken.percent) lx
  lex_token Kind.TokenKind.star_star_eq start lx =
      makes (TokenKind.bin_op_eq BinOpToken.star_star) lx
  lex_token Kind.TokenKind.slash_slash_eq start lx =
      makes (TokenKind.bin_op_eq BinOpToken.slash_slash) lx
  lex_token Kind.TokenKind.caret_eq start lx = makes (TokenKind.bin_op_eq BinOpToken.caret) lx
  lex_token Kind.TokenKind.and_eq start lx = makes (TokenKind.bin_op_eq BinOpToken.and) lx
  lex_token Kind.TokenKind.or_eq start lx = makes (TokenKind.bin_op_eq BinOpToken.or) lx
  lex_token Kind.TokenKind.lt_lt_eq start lx = makes (TokenKind.bin_op_eq BinOpToken.shl) lx
  lex_token Kind.TokenKind.gt_gt_eq start lx = makes (TokenKind.bin_op_eq BinOpToken.shr) lx
  lex_token Kind.TokenKind.eq_eq start lx = makes (TokenKind.bin_cmp BinCmpToken.eq) lx
  lex_token Kind.TokenKind.bang_eq start lx = makes (TokenKind.bin_cmp BinCmpToken.not_eq) lx
  lex_token Kind.TokenKind.lt start lx = makes (TokenKind.bin_cmp BinCmpToken.lt) lx
  lex_token Kind.TokenKind.lt_eq start lx = makes (TokenKind.bin_cmp BinCmpToken.lt_eq) lx
  lex_token Kind.TokenKind.gt start lx = makes (TokenKind.bin_cmp BinCmpToken.gt) lx
  lex_token Kind.TokenKind.gt_eq start lx = makes (TokenKind.bin_cmp BinCmpToken.gt_eq) lx
  lex_token Kind.TokenKind.at_sign start lx = makes TokenKind.at_sign lx
  lex_token Kind.TokenKind.dot start lx = makes TokenKind.dot lx
  lex_token Kind.TokenKind.dot_dot_dot start lx = makes TokenKind.dot_dot_dot lx
  lex_token Kind.TokenKind.comma start lx = makes TokenKind.comma lx
  lex_token Kind.TokenKind.colon start lx = makes TokenKind.colon lx
  lex_token Kind.TokenKind.dollar start lx = makes TokenKind.dollar lx
  lex_token Kind.TokenKind.question start lx = makes TokenKind.question lx
  lex_token Kind.TokenKind.eq start lx = makes TokenKind.assign lx
  lex_token Kind.TokenKind.open_paren start lx = open_token DelimToken.paren lx
  lex_token Kind.TokenKind.close_paren start lx =
      close_token DelimToken.paren (codes "error nesting on close paren") start lx.delims lx
  lex_token Kind.TokenKind.open_brace start lx = open_token DelimToken.brace lx
  lex_token Kind.TokenKind.close_brace start lx =
      close_token DelimToken.brace (codes "error nesting on close brace") start lx.delims lx
  lex_token Kind.TokenKind.open_bracket start lx = open_token DelimToken.bracket lx
  lex_token Kind.TokenKind.close_bracket start lx =
      close_token DelimToken.bracket (codes "mismatched closing delimiter") start lx.delims lx
  lex_token Kind.TokenKind.line_continue start lx = returned (none, lx)
  lex_token Kind.TokenKind.invalid_line_continue start lx =
      skips (codes "unexpected character after line continuation character") start lx
  lex_token kind start lx = skips (codes "unknown start of token") start lx
