-- ===== src/Parser/Lexer/IndentFrame.antt =====
-- What the indent of a line changes of the lexer, and the tokens that it makes: the stack of indents keeps
-- its bottom, and its height follows the tokens.
use kclvm.Prelude.{
  ℕ, zero, suc, ◌+◌, ◌<◌, ◌≡◌, ◌≢◌, ◌⊎◌, inl, inr, refl, ap, sym, ◌∙◌, Bool, false, not, List, [],
  ◌∷◌, Option, none, some, Text, arith, length,
}
use kclvm.Lexer.Kind
use kclvm.Lexer.Eats.{if_lem}
use kclvm.Parser.Token.{Token, DelimToken}
use kclvm.Parser.Lexer.Run.{Gives, Gives-bind}
use kclvm.Parser.Lexer.State.{Lexer, IndentLevel, span_error}
use kclvm.Parser.Lexer.Indent.{
  Order, cmp_ℕ, cmp, IndentOrDedents, no_indent, last_indent, unindent, indent_by, lex_indent,
  at_line_start, lex_indent_context,
}
use kclvm.Parser.Lexer.Nesting.{bracket_step, indent_step, run_check}

-- The stack has the level of no indent at its bottom.
abbrev pub Rooted : List IndentLevel → Type 0
Rooted [] = ⊥
Rooted (i ∷ []) = i ≡ no_indent
Rooted (i ∷ j ∷ is) = Rooted (j ∷ is)

-- How many indents are open.
abbrev pub depth : List IndentLevel → ℕ
depth [] = 0
depth (i ∷ is) = length is

-- Nothing is less indented than no indent.
cmp-no_indent : (a : IndentLevel) → cmp a no_indent ≢ inr Order.less
unfolding cmp cmp_ℕ
cmp-no_indent a e = ground (arith, e)

-- The tokens pass the two checks, and the lexer is the old one but for its indents and errors.
abbrev Levels : Lexer → List Token → Lexer → Type 0
Levels lx ts lx' =
    (lx'.src ≡ lx.src)
    × (lx'.start_pos ≡ lx.start_pos)
    × (lx'.pos ≡ lx.pos)
    × (lx'.delims ≡ lx.delims)
    × Rooted lx'.indents
    × (run_check indent_step (depth lx.indents) ts ≡ some (depth lx'.indents))
    × ((ds : List DelimToken) → run_check bracket_step ds ts ≡ some ds)

unindent-Gives :
    (f : ℕ) (level i : IndentLevel) (is : List IndentLevel) (lx : Lexer)
    → length is < f
    → Rooted (i ∷ is)
    → (o : Text ⊎ Order) → cmp level i ≡ o
    → Gives
        (λ r. Levels (record lx { indents = i ∷ is }) r.0 r.1)
        (unindent f level o (record lx { indents = i ∷ is }))
unfolding unindent run_check indent_step bracket_step last_indent span_error
unindent-Gives zero level i is lx h root o e = absurd (omega arith)
unindent-Gives (suc f) level i is lx h root (inl msg) e =
    (refl, refl, refl, refl, root, refl, λ ds. refl)
unindent-Gives (suc f) level i is lx h root (inr Order.equal) e =
    (refl, refl, refl, refl, root, refl, λ ds. refl)
unindent-Gives (suc f) level i is lx h root (inr Order.greater) e =
    (refl, refl, refl, refl, root, refl, λ ds. refl)
unindent-Gives (suc f) level i [] lx h root (inr Order.less) e =
    absurd (cmp-no_indent level (ap (λ j. cmp level j) (sym root) ∙ e))
unindent-Gives (suc f) level i (j ∷ is) lx h root (inr Order.less) e =
    Gives-bind (λ r. Levels (record lx { indents = j ∷ is }) r.0 r.1)
      (λ r. Levels (record lx { indents = i ∷ j ∷ is }) r.0 r.1)
      (unindent f level (cmp level j) (record lx { indents = j ∷ is })) _
      (unindent-Gives f level j is lx (omega (arith, h)) root (cmp level j) refl) (λ r k. k)

-- The indents or dedents that a line starts with.
abbrev pub leading_of : Option IndentOrDedents → List Token
leading_of none = []
leading_of (some (IndentOrDedents.indent t)) = t ∷ []
leading_of (some (IndentOrDedents.dedents ts)) = ts

abbrev pub Leads : Lexer → Option IndentOrDedents × Lexer → Type 0
Leads lx (o, lx') = Levels lx (leading_of o) lx'

indent_by-Gives :
    (level i : IndentLevel) (is : List IndentLevel) (lx : Lexer)
    → Rooted (i ∷ is)
    → (o : Text ⊎ Order) → cmp level i ≡ o
    → Gives
        (Leads (record lx { indents = i ∷ is }))
        (indent_by level o (record lx { indents = i ∷ is }))
unfolding indent_by run_check indent_step bracket_step span_error
indent_by-Gives level i is lx root (inl msg) e = (refl, refl, refl, refl, root, refl, λ ds. refl)
indent_by-Gives level i is lx root (inr Order.equal) e =
    (refl, refl, refl, refl, root, refl, λ ds. refl)
indent_by-Gives level i is lx root (inr Order.greater) e =
    (refl, refl, refl, refl, root, refl, λ ds. refl)
indent_by-Gives level i is lx root (inr Order.less) e =
    let lx0 : Lexer = record lx { indents = i ∷ is } in
    Gives-bind (λ r. Levels lx0 r.0 r.1) (Leads lx0)
      (unindent (suc (length is) + 2) level (inr Order.less) lx0) _
      (unindent-Gives (suc (length is) + 2) level i is lx (omega arith) root (inr Order.less) e)
      (λ r k. k)

lex_indent-Gives :
    (is : List IndentLevel) (lx : Lexer)
    → Rooted is
    → Gives (Leads (record lx { indents = is })) (lex_indent (record lx { indents = is }))
unfolding lex_indent last_indent
lex_indent-Gives [] lx root = absurd root
lex_indent-Gives (i ∷ is) lx root =
    let level : IndentLevel = record { tabs = lx.tabs; spaces = lx.spaces } in
    indent_by-Gives level i is (record lx { tabs = 0; spaces = 0 }) root (cmp level i) refl

nothing-Leads :
    (lx : Lexer) (new_line : Bool) (tabs spaces : ℕ)
    → Rooted lx.indents
    → Leads lx (none, record lx { new_line_beginning = new_line; tabs = tabs; spaces = spaces })
unfolding run_check
nothing-Leads lx new_line tabs spaces root = (refl, refl, refl, refl, root, refl, λ ds. refl)

at_line_start-Gives :
    (kind : Kind.TokenKind) (lx : Lexer)
    → Rooted lx.indents
    → Gives (Leads lx) (at_line_start kind lx)
at_line_start-Gives (Kind.TokenKind.line_comment d) lx root =
    nothing-Leads lx lx.new_line_beginning 0 0 root
at_line_start-Gives Kind.TokenKind.newline lx root = nothing-Leads lx lx.new_line_beginning 0 0 root
at_line_start-Gives Kind.TokenKind.tab lx root =
    nothing-Leads lx lx.new_line_beginning (suc lx.tabs) lx.spaces root
at_line_start-Gives Kind.TokenKind.space lx root =
    nothing-Leads lx lx.new_line_beginning lx.tabs (suc lx.spaces) root
at_line_start-Gives kind lx root =
    lex_indent-Gives lx.indents (record lx { new_line_beginning = false }) root

pub lex_indent_context-Gives :
    (kind : Kind.TokenKind) (lx : Lexer)
    → Rooted lx.indents
    → Gives (Leads lx) (lex_indent_context kind lx)
unfolding lex_indent_context
lex_indent_context-Gives kind lx root =
    if_lem (Gives (Leads lx)) (not lx.new_line_beginning)
      (nothing-Leads lx lx.new_line_beginning lx.tabs lx.spaces root)
      (at_line_start-Gives kind lx root)
