-- ===== src/Parser/Lexer/NoPanic.antt =====
-- The lexer of the parser returns the tokens of a text of ASCII characters.
use kclvm.Prelude.{
  ℕ, zero, suc, ◌≡◌, ◌≢◌, inl, inr, refl, ap, sym, subst, Bool, Option, none, some, List, Text,
  arith, length,
}
use kclvm.Lexer.Eats.{if_lem}
use kclvm.Parser.Token.{Token}
use kclvm.Parser.Lexer.Run.{
  Run, returned, panicked, out_of_fuel, Works, Works-bind, Works-both, Works-imp, match_option,
}
use kclvm.Parser.Lexer.State.{Lexer, new_lexer}
use kclvm.Parser.Lexer.AsciiSlices.{Ascii}
use kclvm.Parser.Lexer.ScalarValues.{IsScalar, IfSome}
use kclvm.Parser.Lexer.IndentFrame.{Rooted}
use kclvm.Parser.Lexer.LiteralFrame.{Any}
use kclvm.Parser.Lexer.Streams.{Turns, turn-Turns}
use kclvm.Parser.Lexer.SymbolsWorks.{Sound}
use kclvm.Parser.Lexer.TurnsWorks.{SoundTurn, turn-Works}
use kclvm.Parser.Lexer.Balanced.{parse_token_streams-ends}
use kclvm.Parser.Lexer.Loop.{
  TokenWithIndents, Turn, is_eof_token, turn, token_loop, into_tokens, parse_token_streams,
}

-- The indents have their bottom, too.
abbrev Whole : Lexer → Type 0
Whole lx = Rooted lx.indents × Sound lx

abbrev WholeTurn : Turn → Type 0
WholeTurn r = Whole r.1

abbrev WholeToken : TokenWithIndents × Lexer → Type 0
WholeToken r = Whole r.1

Works-returns {ℓ} :
    {A : Type ℓ} (P : A → Type 0) (m : Run A)
    → Works P m
    → m ≢ out_of_fuel
    → (a : A) × (m ≡ returned a)
Works-returns P (returned a) h n = (a, refl)
Works-returns P panicked h n = absurd h
Works-returns P out_of_fuel h n = absurd (n refl)

module _ (is_id_start is_id_continue is_emoji : ℕ → Bool) (character : Text → Option ℕ)
    (names : (s : Text) → IfSome IsScalar (character s)) where
  Turns-Rooted :
      (lx : Lexer) (r : Turn)
      → Rooted lx.indents
      → Turns is_id_start is_id_continue is_emoji character lx r
      → Rooted r.1.indents
  Turns-Rooted lx r root (inl e) =
      subst (λ (l : Lexer). Rooted l.indents) (sym (ap (λ (r : Turn). r.1) e)) root
  Turns-Rooted lx r root (inr (x, s, e, m)) = m.2

  turn-WholeTurn :
      (lx : Lexer)
      → Whole lx
      → Works WholeTurn (turn is_id_start is_id_continue is_emoji character lx)
  turn-WholeTurn lx (root, h) =
      Works-imp _ WholeTurn (turn is_id_start is_id_continue is_emoji character lx)
        (λ r p. (Turns-Rooted lx r root p.0, p.1))
        (Works-both (Turns is_id_start is_id_continue is_emoji character lx) SoundTurn
          (turn is_id_start is_id_continue is_emoji character lx)
          (turn-Turns is_id_start is_id_continue is_emoji character lx root)
          (turn-Works is_id_start is_id_continue is_emoji character names lx root h))

  after_turn-Works :
      (r : Turn) (next : Lexer → Run (TokenWithIndents × Lexer))
      → WholeTurn r
      → ((lx : Lexer) → Whole lx → Works WholeToken (next lx))
      → Works WholeToken (match_option r.0 (next r.1) (λ t. returned (t, r.1)))
  after_turn-Works (none, lx) next h k = k lx h
  after_turn-Works (some t, lx) next h k = h

  token_loop-Works :
      (f : ℕ) (lx : Lexer)
      → Whole lx
      → Works WholeToken (token_loop is_id_start is_id_continue is_emoji character f lx)
  unfolding token_loop
  token_loop-Works zero lx h = tt
  token_loop-Works (suc f) lx h =
      Works-bind WholeTurn WholeToken (turn is_id_start is_id_continue is_emoji character lx) _
        (turn-WholeTurn lx h) (λ r k. after_turn-Works r _ k (token_loop-Works f))

  into_tokens-Works :
      (f : ℕ) (lx : Lexer)
      → Whole lx
      → Works Any (into_tokens is_id_start is_id_continue is_emoji character f lx)
  unfolding into_tokens
  into_tokens-Works zero lx h = tt
  into_tokens-Works (suc f) lx h =
      Works-bind WholeToken Any
        (token_loop is_id_start is_id_continue is_emoji character (suc f) lx) _
        (token_loop-Works (suc f) lx h)
        (λ r k. if_lem (Works Any) (is_eof_token r.0) tt (
          Works-bind Any Any (into_tokens is_id_start is_id_continue is_emoji character f r.1) _
            (into_tokens-Works f r.1 k) (λ _ _. tt)))

  -- On a text of ASCII characters, with names that stand for Unicode scalar values, the lexer of
  -- the parser neither panics nor runs out of fuel: it returns tokens, and errors for what is no
  -- token.
  pub parse_token_streams-Returns :
      (src : Text) (start_pos : ℕ)
      → Ascii src
      → (r : List Token × Lexer) × (parse_token_streams is_id_start is_id_continue is_emoji
            character src start_pos
          ≡ returned r)
  unfolding parse_token_streams new_lexer
  parse_token_streams-Returns src start_pos ascii =
      Works-returns Any
        (into_tokens is_id_start is_id_continue is_emoji character (suc (length src))
          (new_lexer src start_pos))
        (into_tokens-Works (suc (length src)) (new_lexer src start_pos)
          (refl, (ascii, omega arith, omega arith, tt)))
        (parse_token_streams-ends is_id_start is_id_continue is_emoji character src start_pos)
