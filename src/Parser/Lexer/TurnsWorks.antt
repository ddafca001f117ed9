-- ===== src/Parser/Lexer/TurnsWorks.antt =====
-- On a text of ASCII characters a turn of the loop does not panic, and the lexer stays sound.
use kclvm.Prelude.{
  ℕ, zero, suc, ◌+◌, ◌-◌, ◌≡◌, ◌⊎◌, inl, inr, ap, sym, subst, ◌∙◌, Bool, not, [], ◌∷◌, Option, none,
  some, Text, arith, if◌then◌else◌,
}
use kclvm.Prelude.Monad.{All}
use kclvm.Lexer.Kind
use kclvm.Lexer.Cursor.{str_len, no_chars}
use kclvm.Lexer.Eats.{if_lem}
use kclvm.Lexer.Scan.{first_token}
use kclvm.Lexer.FirstToken.{Fits, first_token-Fits, first_token-len_le}
use kclvm.Parser.Token.{TokenKind}
use kclvm.Parser.Lexer.Run.{
  returned, or_panic, Works, Works-bind, Works-both, Works-imp, Works-returned,
}
use kclvm.Parser.Lexer.State.{Lexer, IndentLevel, drop_bytes, slice, src_index, char_from}
use kclvm.Parser.Lexer.AsciiSlices.{Ascii, drop_bytes-Ascii, slice-Ascii, byte-first}
use kclvm.Parser.Lexer.ScalarValues.{IsScalar, IfSome}
use kclvm.Parser.Lexer.Drops.{slice-drop_bytes}
use kclvm.Parser.Lexer.Indent.{
  Order, IndentOrDedents, cmp, last_indent, pop, unindent, indent_by, lex_indent, at_line_start,
  lex_indent_context, mark,
}
use kclvm.Parser.Lexer.IndentFrame.{Rooted, Leads, lex_indent_context-Gives}
use kclvm.Parser.Lexer.LiteralFrame.{Any}
use kclvm.Parser.Lexer.Symbols.{Made, lex_token}
use kclvm.Parser.Lexer.SymbolsWorks.{IsOpen, Sound, SoundMade, lex_token-Works}
use kclvm.Parser.Lexer.Loop.{Turn, TokenWithIndents, finish, turn_at, turn}

unindent-Works :
    (f : ℕ) (level : IndentLevel) (o : Text ⊎ Order) (lx : Lexer)
    → Works Any (unindent f level o lx)
unfolding unindent
unindent-Works zero level o lx = tt
unindent-Works (suc f) level (inl msg) lx = tt
unindent-Works (suc f) level (inr Order.equal) lx = tt
unindent-Works (suc f) level (inr Order.greater) lx = tt
unindent-Works (suc f) level (inr Order.less) lx =
    let next = last_indent (record lx { indents = pop lx.indents }) in
    Works-bind Any Any (unindent f level (cmp level next.0) next.1) _
      (unindent-Works f level (cmp level next.0) next.1) (λ _ _. tt)

indent_by-Works :
    (level : IndentLevel) (o : Text ⊎ Order) (lx : Lexer) → Works Any (indent_by level o lx)
unfolding indent_by
indent_by-Works level (inl msg) lx = tt
indent_by-Works level (inr Order.equal) lx = tt
indent_by-Works level (inr Order.greater) lx = tt
indent_by-Works level (inr Order.less) lx =
    Works-bind Any Any (unindent _ level (inr Order.less) lx) _
      (unindent-Works _ level (inr Order.less) lx) (λ _ _. tt)

at_line_start-Works : (kind : Kind.TokenKind) (lx : Lexer) → Works Any (at_line_start kind lx)
unfolding lex_indent
at_line_start-Works (Kind.TokenKind.line_comment d) lx = tt
at_line_start-Works Kind.TokenKind.newline lx = tt
at_line_start-Works Kind.TokenKind.tab lx = tt
at_line_start-Works Kind.TokenKind.space lx = tt
at_line_start-Works kind lx = indent_by-Works _ _ _

-- The indent of a line is read without a panic, on any text.
lex_indent_context-Works :
    (kind : Kind.TokenKind) (lx : Lexer)
    → Rooted lx.indents
    → Works (Leads lx) (lex_indent_context kind lx)
unfolding lex_indent_context
lex_indent_context-Works kind lx root =
    Works-imp _ (Leads lx) (lex_indent_context kind lx) (λ r p. p.0)
      (Works-both (Leads lx) Any (lex_indent_context kind lx)
        (lex_indent_context-Gives kind lx root)
        (if_lem (Works Any) (not lx.new_line_beginning) tt (at_line_start-Works kind lx)))

-- The byte at the position is the character that is left to read.
char_from-first :
    (lx : Lexer) (x : ℕ) (s : Text)
    → Ascii lx.src
    → drop_bytes (src_index lx lx.pos) lx.src ≡ some (x ∷ s)
    → char_from lx lx.pos ≡ returned x
unfolding char_from
char_from-first lx x s h e = ap or_panic (byte-first (src_index lx lx.pos) lx.src x s h e)

left_len :
    (lx : Lexer) (t : Text)
    → Sound lx
    → drop_bytes (src_index lx lx.pos) lx.src ≡ some t
    → Ascii t × (lx.pos + str_len t ≡ lx.start_pos + str_len lx.src)
unfolding src_index
left_len lx t h e =
    let (u, k, a, l) =
      drop_bytes-Ascii (lx.pos - lx.start_pos) lx.src h.0 (omega (arith, h.1, h.2)) in
    let same : some u ≡ some t = sym k ∙ e in
    let eq : u ≡ t = cc in (subst Ascii eq a, omega (arith, l, h.1, ap str_len eq))

abbrev pub SoundTurn : Turn → Type 0
SoundTurn r = Sound r.1

finish-Sound :
    (i : Option IndentOrDedents) (start : ℕ) (m : Made) → SoundMade m → SoundTurn (finish i start m)
finish-Sound i start (none, lx) h = h
finish-Sound i start (some k, lx) h = h

module _ (is_id_start is_id_continue is_emoji : ℕ → Bool) (character : Text → Option ℕ)
    (names : (s : Text) → IfSome IsScalar (character s)) where
  -- The token at the place where the indent has been read.
  made_at-Works :
      (x : ℕ) (s : Text) (lx : Lexer)
      → Sound lx
      → drop_bytes (src_index lx lx.pos) lx.src ≡ some (x ∷ s)
      → (let next = first_token is_id_start is_id_continue is_emoji (x ∷ s) in
          Works SoundMade
            (lex_token character next.kind lx.pos (record lx { pos = lx.pos + next.len })))
  unfolding src_index char_from
  made_at-Works x s lx h e =
      let next = first_token is_id_start is_id_continue is_emoji (x ∷ s) in
      let lx' : Lexer = record lx { pos = lx.pos + next.len } in
      let (a, l) = left_len lx (x ∷ s) h e in
      let fits : Fits x next.len next.kind =
        first_token-Fits is_id_start is_id_continue is_emoji x s in
      lex_token-Works character names next.kind lx.pos x lx' h.1 (omega arith)
        (char_from-first lx x s h.0 e) a.0
        (subst (λ n. Fits x n next.kind) {x = next.len} (omega arith) fits)
        (
          h.0,
          omega (arith, h.1),
          omega (arith, l, first_token-len_le is_id_start is_id_continue is_emoji x s),
          h.3,
        )

  turn_at-Works :
      (x : ℕ) (s : Text) (lx : Lexer)
      → Rooted lx.indents
      → Sound lx
      → drop_bytes (src_index lx lx.pos) lx.src ≡ some (x ∷ s)
      → Works SoundTurn (turn_at is_id_start is_id_continue is_emoji character (x ∷ s) lx)
  unfolding turn_at src_index
  turn_at-Works x s lx root h e =
      let next = first_token is_id_start is_id_continue is_emoji (x ∷ s) in
      Works-bind (Leads lx) SoundTurn (lex_indent_context next.kind lx) _
        (lex_indent_context-Works next.kind lx root)
        (λ r l.
          let lx1 = r.1 in
          let h1 : Sound lx1 = (
            subst Ascii (sym l.0) h.0,
            omega (arith, l.1, l.2, h.1),
            omega (arith, l.1, l.2, h.2, ap str_len l.0),
            subst (All IsOpen) (sym l.3) h.3,
          ) in
          let at : drop_bytes (lx1.pos - lx1.start_pos) lx1.src ≡ some (x ∷ s) =
            ap (drop_bytes (lx1.pos - lx1.start_pos)) l.0
            ∙ ap (λ n. drop_bytes n lx.src) {y = lx.pos - lx.start_pos} (omega (arith, l.1, l.2))
            ∙ e in
          Works-bind SoundMade SoundTurn
            (lex_token character next.kind lx1.pos (record lx1 { pos = lx1.pos + next.len })) _
            (made_at-Works x s lx1 h1 at) (λ m k. finish-Sound r.0 lx1.pos m k))

  turn_text-Works :
      (text : Text) (lx : Lexer)
      → Rooted lx.indents
      → Sound lx
      → drop_bytes (src_index lx lx.pos) lx.src ≡ some text
      → Works SoundTurn (
          if no_chars text
          then returned (some (TokenWithIndents.token (mark TokenKind.eof lx)), lx)
          else turn_at is_id_start is_id_continue is_emoji character text lx)
  turn_text-Works [] lx root h e = h
  turn_text-Works (x ∷ s) lx root h e = turn_at-Works x s lx root h e

  pub turn-Works :
      (lx : Lexer)
      → Rooted lx.indents
      → Sound lx
      → Works SoundTurn (turn is_id_start is_id_continue is_emoji character lx)
  unfolding turn src_index
  turn-Works lx root h =
      let p : ℕ = lx.pos - lx.start_pos in
      let (t, e, a) =
        slice-Ascii lx.src p (str_len lx.src) h.0 (omega (arith, h.1, h.2)) (omega arith) in
      Works-returned SoundTurn (or_panic (slice lx.src p (str_len lx.src))) _ t (ap or_panic e)
        (turn_text-Works t lx root h (slice-drop_bytes lx.src p t e))
