-- ===== src/Parser/Lexer/Nesting.antt =====
-- Two checks of the tokens of a text, which do not look at the lexer: of its brackets, and of its indents.
use kclvm.Prelude.{
  ℕ, zero, suc, List, [], ◌∷◌, ◌++◌, Option, none, some, ◌>>=◌, ◌≡◌, refl, ap, ◌∙◌, if◌then◌else◌,
}
use kclvm.Parser.Token.{Token, TokenKind, DelimToken}
use kclvm.Parser.Lexer.Symbols.{same_delim}

-- A closing bracket closes the bracket that was opened last; one without any is let pass.
unfoldable pub bracket_step : List DelimToken → TokenKind → Option (List DelimToken)
bracket_step ds (TokenKind.open_delim d) = some (d ∷ ds)
bracket_step [] (TokenKind.close_delim d) = some []
bracket_step (e ∷ ds) (TokenKind.close_delim d) = if same_delim e d then some ds else none
bracket_step ds _ = some ds

-- A dedent ends an indent.
unfoldable pub indent_step : ℕ → TokenKind → Option ℕ
indent_step n TokenKind.indent = some (suc n)
indent_step zero TokenKind.dedent = none
indent_step (suc n) TokenKind.dedent = some n
indent_step n _ = some n

-- The check of a list of tokens, from the brackets and the indents that are open to those that remain.
module _ {A : Type 0} (step : A → TokenKind → Option A) where
  unfoldable pub run_check : A → List Token → Option A
  run_check a [] = some a
  run_check a (t ∷ ts) = step a t.kind >>= λ b. run_check b ts

  run_check-step :
      (o : Option A) (ts us : List Token)
      → ((a : A) → run_check a (ts ++ us) ≡ (run_check a ts >>= λ b. run_check b us))
      → (o >>= λ a. run_check a (ts ++ us)) ≡ (o >>= (λ a. run_check a ts) >>= λ b. run_check b us)
  run_check-step (some a) ts us h = h a
  run_check-step none ts us h = refl

  run_check-bind :
      (a : A) (ts us : List Token)
      → run_check a (ts ++ us) ≡ (run_check a ts >>= λ b. run_check b us)
  unfolding run_check
  run_check-bind a [] us = refl
  run_check-bind a (t ∷ ts) us = run_check-step (step a t.kind) ts us (λ b. run_check-bind b ts us)

  -- A check goes on where the first tokens leave it.
  pub run_check-append :
      (a b : A) (ts us : List Token)
      → run_check a ts ≡ some b
      → run_check a (ts ++ us) ≡ run_check b us
  run_check-append a b ts us e = run_check-bind a ts us ∙ ap (λ o. o >>= λ c. run_check c us) e
