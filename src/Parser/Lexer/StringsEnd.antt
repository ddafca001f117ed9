-- ===== src/Parser/Lexer/StringsEnd.antt =====
-- The value of a string is computed: each turn of the loop reads a character.
use kclvm.Prelude.{
  ℕ, zero, suc, ◌<◌, ◌≡◌, ◌⊎◌, inl, refl, Bool, true, not, ◌&&◌, ◌||◌, [], ◌∷◌, Option, none, some,
  Text, arith, ltb, if◌then◌else◌, length, ◌==◌,
}
use kclvm.Lexer.Number.{between}
use kclvm.Lexer.Eats.{if_lem, if_case}
use kclvm.Parser.Lexer.Run.{
  returned, match_option_lem, Gives, Gives-imp, Gives-bind, Gives-or_panic, or_panic, ◌>>=◌,
}
use kclvm.Parser.Lexer.Escapes.{unicode_literal, parse_octet, parse_unicode_name}
use kclvm.Parser.Lexer.EscapesLeft.{
  Left, Left-mono, Left-unicode_literal, octal_digits-length, Left-parse_unicode_name,
}
use kclvm.Parser.Lexer.Strings.{
  Escape, gives, one_of, escape, after_backslash, eval_char, eval_loop, str_content_eval,
}

abbrev Shrinks : Text → Escape → Type 0
Shrinks s e = Gives (Left (length s)) e

one_of-Shrinks : (s : Text) (o : Option (ℕ × Text)) → Left (length s) o → Shrinks s (one_of o)
one_of-Shrinks s (some r) h = h
one_of-Shrinks s none h = tt

gives-Shrinks : (value s : Text) → Shrinks s (gives value s)
gives-Shrinks value s = omega arith

module _ (character : Text → Option ℕ) (quote_char : ℕ) (is_bytes : Bool) where
  octet-Shrinks :
      (c : ℕ) (s : Text)
      → Shrinks s (or_panic (parse_octet c s).0 >>= λ x. gives (x ∷ []) (parse_octet c s).1)
  unfolding parse_octet
  octet-Shrinks c s =
      Gives-bind (λ _. Unit) (Left (length s)) (or_panic (parse_octet c s).0)
        (λ x. gives (x ∷ []) (parse_octet c s).1)
        (Gives-or_panic (λ _. Unit) (parse_octet c s).0 (λ a e. tt))
        (λ x h. octal_digits-length 2 s)

  -- What holds of every branch holds of the escape. Where the escape is one character, that is the quote
  -- or one of ASCII.
  pub escape_lem :
      (P : Escape → Type 0) (c : ℕ) (s : Text)
      → ((x : ℕ) → (x ≡ quote_char) ⊎ (x < 128) → P (gives (x ∷ []) s))
      → P (gives [] s)
      → (between b'0' b'7' c ≡ true
          → P (or_panic (parse_octet c s).0 >>= λ x. gives (x ∷ []) (parse_octet c s).1))
      → ((k : ℕ) → P (one_of (unicode_literal k s)))
      → P (one_of (parse_unicode_name character s))
      → P (gives (b'\\' ∷ c ∷ []) s)
      → P (escape character quote_char is_bytes c s)
  unfolding escape
  escape_lem P c s one nothing octet code name both =
      if_lem P (c == quote_char) (one quote_char (inl refl)) (
        if_lem P (c == b'\\') (one b'\\' (omega arith)) (
          if_lem P (c == b'\'') (one b'\'' (omega arith)) (
            if_lem P (c == b'"') (one b'"' (omega arith)) (
              if_lem P (c == b'\n') nothing (
                if_lem P (c == b'a') (one 0x07 (omega arith)) (
                  if_lem P (c == b'b') (one 0x08 (omega arith)) (
                    if_lem P (c == b'f') (one 0x0c (omega arith)) (
                      if_lem P (c == b'n') (one b'\n' (omega arith)) (
                        if_lem P (c == b'r') (one b'\r' (omega arith)) (
                          if_lem P (c == b't') (one b'\t' (omega arith)) (
                            if_lem P (c == b'v') (one 0x0b (omega arith)) (
                              if_case P (between b'0' b'7' c) octet (λ _.
                                if_lem P (c == b'x') (code 2) (
                                  if_lem P (c == b'u' && not is_bytes) (code 4) (
                                    if_lem P (c == b'U' && not is_bytes) (code 8) (
                                      if_lem P (c == b'N' && not is_bytes) name both))))))))))))))))

  escape-Shrinks : (c : ℕ) (s : Text) → Shrinks s (escape character quote_char is_bytes c s)
  escape-Shrinks c s =
      escape_lem (Shrinks s) c s (λ x _. gives-Shrinks (x ∷ []) s) (gives-Shrinks [] s)
        (λ _. octet-Shrinks c s)
        (λ k. one_of-Shrinks s (unicode_literal k s) (Left-unicode_literal k s))
        (one_of-Shrinks s (parse_unicode_name character s) (Left-parse_unicode_name character s))
        (gives-Shrinks (b'\\' ∷ c ∷ []) s)

  after_backslash-Shrinks :
      (is_raw : Bool) (s : Text)
      → Shrinks s (after_backslash character quote_char is_bytes is_raw s)
  unfolding after_backslash
  after_backslash-Shrinks is_raw [] = tt
  after_backslash-Shrinks is_raw (c ∷ s) =
      Gives-imp (Left (length s)) (Left (suc (length s)))
        (if is_raw then gives (b'\\' ∷ c ∷ []) s else escape character quote_char is_bytes c s)
        (Left-mono (length s) (suc (length s)) (omega arith))
        (if_lem (Shrinks s) is_raw (gives-Shrinks (b'\\' ∷ c ∷ []) s) (escape-Shrinks c s))

module _ (character : Text → Option ℕ) (quote_char : ℕ) (triple_quoted is_bytes is_raw : Bool) where
  eval_char-Shrinks :
      (c : ℕ) (s : Text)
      → Shrinks s (eval_char character quote_char triple_quoted is_bytes is_raw c s)
  unfolding eval_char
  eval_char-Shrinks c s =
      if_lem (Shrinks s) (c == b'\\')
        (after_backslash-Shrinks character quote_char is_bytes is_raw s)
        (if_lem (Shrinks s) (c == b'\n' && not triple_quoted || is_bytes && not (ltb c 128)) tt
          (gives-Shrinks (c ∷ []) s))

  eval_loop-Gives :
      (f : ℕ) (s : Text)
      → length s < f
      → Gives (λ _. Unit) (eval_loop character quote_char triple_quoted is_bytes is_raw f s)
  unfolding eval_loop
  eval_loop-Gives zero s h = absurd (omega arith)
  eval_loop-Gives (suc f) [] h = tt
  eval_loop-Gives (suc f) (c ∷ s) h =
      Gives-bind (Left (length s)) (λ _. Unit)
        (eval_char character quote_char triple_quoted is_bytes is_raw c s) _ (eval_char-Shrinks c s)
        (λ e l.
          match_option_lem (Left (length s)) (Gives (λ _. Unit)) e (returned none) _ l (λ _. tt)
            (λ p k.
              Gives-bind (λ _. Unit) (λ _. Unit)
                (eval_loop character quote_char triple_quoted is_bytes is_raw f p.1) _
                (eval_loop-Gives f p.1 (omega (arith, h, k))) (λ r t. t)))

  pub str_content_eval-Gives :
      (s : Text)
      → Gives (λ _. Unit) (str_content_eval character quote_char triple_quoted is_bytes is_raw s)
  unfolding str_content_eval
  str_content_eval-Gives s = eval_loop-Gives (suc (length s)) s (omega arith)
