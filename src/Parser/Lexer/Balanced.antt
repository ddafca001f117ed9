-- ===== src/Parser/Lexer/Balanced.antt =====
-- The tokens of a whole text.
use kclvm.Prelude.{
  ℕ, zero, suc, ◌-◌, ◌≡◌, ◌≢◌, inl, inr, refl, ap, sym, subst, ◌∙◌, Bool, not, List, [], ◌∷◌, ◌++◌,
  Option, some, Text, arith, length, if◌then◌else◌,
}
use kclvm.Lexer.Eats.{if_lem}
use kclvm.Parser.Token.{Token, TokenKind, DelimToken}
use kclvm.Parser.Lexer.Run.{returned, out_of_fuel, Gives, Gives-bind, ◌>>=◌}
use kclvm.Parser.Lexer.State.{Lexer, IndentLevel, src_index, new_lexer}
use kclvm.Parser.Lexer.Indent.{mark}
use kclvm.Parser.Lexer.Nesting.{bracket_step, indent_step, run_check, run_check-append}
use kclvm.Parser.Lexer.SymbolsFrame.{opened}
use kclvm.Parser.Lexer.IndentFrame.{Rooted, depth}
use kclvm.Parser.Lexer.Drops.{drop_bytes-length_le}
use kclvm.Parser.Lexer.Streams.{Room, Clean, Gets, token_loop-Gets}
use kclvm.Parser.Lexer.Loop.{
  TokenWithIndents, appended, is_eof_token, token_loop, open_dedents, eof, into_tokens,
  parse_token_streams,
}

open_dedents-brackets :
    (ds : List DelimToken) (is : List IndentLevel) (lx : Lexer)
    → run_check bracket_step ds (open_dedents is lx) ≡ some ds
unfolding run_check bracket_step open_dedents
open_dedents-brackets ds [] lx = refl
open_dedents-brackets ds (i ∷ []) lx = refl
open_dedents-brackets ds (i ∷ j ∷ is) lx = open_dedents-brackets ds (j ∷ is) lx

open_dedents-indents :
    (is : List IndentLevel) (lx : Lexer)
    → run_check indent_step (depth is) (open_dedents is lx) ≡ some 0
unfolding run_check indent_step open_dedents
open_dedents-indents [] lx = refl
open_dedents-indents (i ∷ []) lx = refl
open_dedents-indents (i ∷ j ∷ is) lx = open_dedents-indents (j ∷ is) lx

-- Dedents that pass a check between tokens that do not matter to it.
eof-check :
    {A : Type 0} (step : A → TokenKind → Option A) (a b : A) (lx : Lexer)
    → step a TokenKind.newline ≡ some a
    → step b TokenKind.eof ≡ some b
    → run_check step a (open_dedents lx.indents lx) ≡ some b
    → run_check step a (eof lx) ≡ some b
unfolding eof run_check
eof-check step a b lx h k d =
    let line : List Token =
      if not lx.new_line_beginning then mark TokenKind.newline lx ∷ [] else [] in
    let first : run_check step a line ≡ some a =
      if_lem (λ (ts : List Token). run_check step a ts ≡ some a) (not lx.new_line_beginning)
        (rw h refl) refl in
    let dedented : run_check step a (line ++ open_dedents lx.indents lx) ≡ some b =
      run_check-append step a a line (open_dedents lx.indents lx) first ∙ d in
    run_check-append step a b (line ++ open_dedents lx.indents lx) (mark TokenKind.eof lx ∷ [])
      dedented
    ∙ rw k refl

module _ (is_id_start is_id_continue is_emoji : ℕ → Bool) (character : Text → Option ℕ) where
  -- The tokens pass the checks from the state of the lexer on.
  abbrev Checked : Lexer → List Token × Lexer → Type 0
  Checked lx (ts, lx') =
      (run_check bracket_step (opened lx.delims) ts ≡ some (opened lx'.delims))
      × (Clean is_id_start is_id_continue is_emoji lx.src
          → run_check indent_step (depth lx.indents) ts ≡ some 0)

  into_step-Checked :
      (f : ℕ) (lx : Lexer) (r : TokenWithIndents × Lexer)
      → Gets is_id_start is_id_continue is_emoji character f lx r
      → ((lx1 : Lexer)
          → Room f lx1
          → Rooted lx1.indents
          → Gives (Checked lx1) (into_tokens is_id_start is_id_continue is_emoji character f lx1))
      → Gives (Checked lx) (
          if is_eof_token r.0
          then returned (eof r.1, r.1)
          else (into_tokens is_id_start is_id_continue is_emoji character f r.1 >>= λ rest.
              returned (appended r.0 ++ rest.0, rest.1)))
  unfolding bracket_step indent_step
  into_step-Checked f lx (t, lx') (root, src, inl (e, b, i)) ih = rw e (
    eof-check bracket_step (opened lx.delims) (opened lx'.delims) lx' refl refl
        (open_dedents-brackets (opened lx.delims) lx'.indents lx' ∙ ap some (sym b)),
    λ c.
        ap (λ n. run_check indent_step n (eof lx')) (sym (i c))
        ∙ eof-check indent_step (depth lx'.indents) 0 lx' refl refl
            (open_dedents-indents lx'.indents lx'),
  )
  into_step-Checked f lx (t, lx') (root, src, inr (e, room, b, i)) ih = rw e (
      Gives-bind (Checked lx') (Checked lx)
        (into_tokens is_id_start is_id_continue is_emoji character f lx') _ (ih lx' room root)
        (λ rest k. (
          run_check-append bracket_step (opened lx.delims) (opened lx'.delims) (appended t) rest.0 b
              ∙ k.0,
          λ c.
              run_check-append indent_step (depth lx.indents) (depth lx'.indents) (appended t)
                rest.0 (i c)
              ∙ k.1 (subst (Clean is_id_start is_id_continue is_emoji) (sym src) c),
        )))

  into_tokens-Checked :
      (f : ℕ) (lx : Lexer)
      → Room f lx
      → Rooted lx.indents
      → Gives (Checked lx) (into_tokens is_id_start is_id_continue is_emoji character f lx)
  unfolding into_tokens
  into_tokens-Checked zero lx room root = absurd (omega (arith, room.0))
  into_tokens-Checked (suc f) lx room root =
      Gives-bind (Gets is_id_start is_id_continue is_emoji character f lx) (Checked lx)
        (token_loop is_id_start is_id_continue is_emoji character (suc f) lx) _
        (token_loop-Gets is_id_start is_id_continue is_emoji character f lx room root)
        (λ r g. into_step-Checked f lx r g (into_tokens-Checked f))

  new_lexer-Room : (src : Text) (start_pos : ℕ) → Room (suc (length src)) (new_lexer src start_pos)
  unfolding new_lexer src_index
  new_lexer-Room src start_pos = (
    omega arith,
    omega arith,
    λ t e. omega (arith, drop_bytes-length_le (start_pos - start_pos) src t e),
  )

  parse_token_streams-Checked :
      (src : Text) (start_pos : ℕ)
      → Gives
          (Checked (new_lexer src start_pos))
          (parse_token_streams is_id_start is_id_continue is_emoji character src start_pos)
  unfolding parse_token_streams new_lexer
  parse_token_streams-Checked src start_pos =
      into_tokens-Checked (suc (length src)) (new_lexer src start_pos)
        (new_lexer-Room src start_pos) refl

  -- The lexer of the parser ends on every text, by a panic or with tokens: the number of characters
  -- bounds its turns.
  pub parse_token_streams-ends :
      (src : Text) (start_pos : ℕ)
      → parse_token_streams is_id_start is_id_continue is_emoji character src start_pos
        ≢ out_of_fuel
  parse_token_streams-ends src start_pos e =
      subst (Gives (Checked (new_lexer src start_pos))) e
        (parse_token_streams-Checked src start_pos)

  -- In the tokens that the lexer of the parser returns, each closing bracket is of the kind of the
  -- bracket that was opened last and is not closed yet, if there is one, whatever the brackets of
  -- the text are. The brackets that stay open are those on the lexer's stack.
  pub parse_token_streams-brackets :
      (src : Text) (start_pos : ℕ) (ts : List Token) (lx : Lexer)
      → parse_token_streams is_id_start is_id_continue is_emoji character src start_pos
        ≡ returned (ts, lx)
      → run_check bracket_step [] ts ≡ some (opened lx.delims)
  unfolding new_lexer
  parse_token_streams-brackets src start_pos ts lx e =
      (subst (Gives (Checked (new_lexer src start_pos))) e
        (parse_token_streams-Checked src start_pos)).0

  -- If at no place of the text a token starts that is skipped, blanks aside, then in the tokens
  -- that the lexer of the parser returns each dedent ends an indent that stands before it, and no
  -- indent stays open.
  pub parse_token_streams-indents :
      (src : Text) (start_pos : ℕ) (ts : List Token) (lx : Lexer)
      → Clean is_id_start is_id_continue is_emoji src
      → parse_token_streams is_id_start is_id_continue is_emoji character src start_pos
        ≡ returned (ts, lx)
      → run_check indent_step 0 ts ≡ some 0
  unfolding new_lexer
  parse_token_streams-indents src start_pos ts lx c e =
      (subst (Gives (Checked (new_lexer src start_pos))) e
          (parse_token_streams-Checked src start_pos)).1
        c
