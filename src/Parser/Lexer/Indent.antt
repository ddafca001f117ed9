-- ===== src/Parser/Lexer/Indent.antt =====
-- kclvm/parser/src/lexer/indent.rs: indents and dedents.
use kclvm.Prelude.{
  ℕ, zero, suc, ◌+◌, false, not, List, [], ◌∷◌, ◌++◌, Option, none, some, Text, codes,
  if◌then◌else◌, ltb, leb, length, ◌⊎◌, inl, inr, show_ℕ,
}
use kclvm.Lexer.Kind
use kclvm.Parser.Token.{Token, TokenKind}
use kclvm.Parser.Lexer.Run.{Run, returned, out_of_fuel, ◌>>=◌}
use kclvm.Parser.Lexer.State.{Lexer, IndentLevel, span_error}

pub data Order : Type 0 where
  less equal greater : Order

unfoldable pub cmp_ℕ : ℕ → ℕ → Order
cmp_ℕ a b = if ltb a b then Order.less else if ltb b a then Order.greater else Order.equal

unfoldable pub inconsistent : Text
inconsistent = codes "inconsistent use of tabs and spaces in indentation"

-- The order of two levels, or that tabs and spaces disagree.
unfoldable pub cmp : IndentLevel → IndentLevel → Text ⊎ Order
cmp a b = elim (cmp_ℕ a.tabs b.tabs) [
  | Order.less ↦ if leb a.spaces b.spaces then inr Order.less else inl inconsistent
  | Order.greater ↦ if leb b.spaces a.spaces then inr Order.greater else inl inconsistent
  | Order.equal ↦ inr (cmp_ℕ a.spaces b.spaces)
]

pub data IndentOrDedents : Type 0 where
  indent : Token → IndentOrDedents
  dedents : List Token → IndentOrDedents

abbrev pub no_indent : IndentLevel
no_indent = record { tabs = 0; spaces = 0 }

-- The last indent; a lexer with none is given one, and an error.
abbrev last_of : Lexer → List IndentLevel → IndentLevel × Lexer
last_of lx [] = (
  no_indent,
  record (span_error (codes "mismatched indent level") lx.pos lx.pos lx) {
    indents = no_indent ∷ [];
  },
)
last_of lx (i ∷ is) = (i, lx)

unfoldable pub last_indent : Lexer → IndentLevel × Lexer
last_indent lx = last_of lx lx.indents

-- A token that takes no room.
abbrev pub mark : TokenKind → Lexer → Token
mark kind lx = record { kind = kind; lo = lx.pos; hi = lx.pos }

abbrev pub pop {ℓ} : {A : Type ℓ} → List A → List A
pop [] = []
pop (i ∷ is) = is

unfoldable pub unindent_msg : IndentLevel → Text
unindent_msg level =
    codes "unindent " ++ show_ℕ level.spaces ++ codes " does not match any outer indentation level"

-- The loop that collects dedents, at a level and its order with the last indent.
unfoldable pub unindent : ℕ → IndentLevel → Text ⊎ Order → Lexer → Run (List Token × Lexer)
unindent zero level ordering lx = out_of_fuel
unindent (suc f) level (inr Order.less) lx =
    let next = last_indent (record lx { indents = pop lx.indents }) in
    unindent f level (cmp level next.0) next.1 >>= λ r.
    returned (mark TokenKind.dedent lx ∷ r.0, r.1)
unindent (suc f) level (inr Order.equal) lx = returned ([], lx)
unindent (suc f) level (inr Order.greater) lx =
    returned ([], span_error (unindent_msg level) lx.pos lx.pos lx)
unindent (suc f) level (inl msg) lx = returned ([], span_error msg lx.pos lx.pos lx)

-- What a level that was compared with the last indent makes. The stack bounds the dedents.
unfoldable pub indent_by : IndentLevel → Text ⊎ Order → Lexer → Run (Option IndentOrDedents × Lexer)
indent_by level (inr Order.greater) lx = returned (
  some (IndentOrDedents.indent (mark TokenKind.indent lx)),
  record lx { indents = level ∷ lx.indents },
)
indent_by level (inr Order.less) lx =
    unindent (length lx.indents + 2) level (inr Order.less) lx >>= λ r.
    returned (some (IndentOrDedents.dedents r.0), r.1)
indent_by level (inr Order.equal) lx = returned (none, lx)
indent_by level (inl msg) lx = returned (none, span_error msg lx.pos lx.pos lx)

unfoldable pub lex_indent : Lexer → Run (Option IndentOrDedents × Lexer)
lex_indent lx =
    let level : IndentLevel = record { tabs = lx.tabs; spaces = lx.spaces } in
    let next = last_indent (record lx { tabs = 0; spaces = 0 }) in
    indent_by level (cmp level next.0) next.1

-- At the start of a line, by the kind of the next token.
abbrev pub at_line_start : Kind.TokenKind → Lexer → Run (Option IndentOrDedents × Lexer)
at_line_start (Kind.TokenKind.line_comment d) lx =
    returned (none, record lx { tabs = 0; spaces = 0 })
at_line_start Kind.TokenKind.newline lx = returned (none, record lx { tabs = 0; spaces = 0 })
at_line_start Kind.TokenKind.tab lx = returned (none, record lx { tabs = suc lx.tabs })
at_line_start Kind.TokenKind.space lx = returned (none, record lx { spaces = suc lx.spaces })
at_line_start kind lx = lex_indent (record lx { new_line_beginning = false })

unfoldable pub lex_indent_context : Kind.TokenKind → Lexer → Run (Option IndentOrDedents × Lexer)
lex_indent_context kind lx =
    if not lx.new_line_beginning then returned (none, lx) else at_line_start kind lx
