-- ===== src/Parser/Lexer/ScalarStrings.antt =====
-- The value of a string: it is computed without a panic, and is made of Unicode scalar values.
use kclvm.Prelude.{
  ℕ, zero, suc, ◌≤◌, ◌<◌, ◌≡◌, inl, inr, refl, sym, subst, Bool, not, ◌&&◌, ◌||◌, [], ◌∷◌, Option,
  none, some, Text, arith, ltb, length, ◌==◌,
}
use kclvm.Prelude.Pairs.{All-append}
use kclvm.Lexer.Eats.{if_lem}
use kclvm.Parser.Lexer.Run.{Run, returned, panicked, out_of_fuel, or_panic, match_option, ◌>>=◌}
use kclvm.Parser.Lexer.Escapes.{unicode_literal, parse_octet, parse_unicode_name}
use kclvm.Parser.Lexer.Strings.{
  Escape, gives, escape, after_backslash, eval_char, put, eval_loop, str_content_eval,
}
use kclvm.Parser.Lexer.StringsEnd.{escape_lem}
use kclvm.Parser.Lexer.ScalarValues.{
  IsScalar, Scalars, IfSome, Rest, Fine, parse_octet-Char, one_of-Fine, unicode_literal-Char,
  parse_unicode_name-Char,
}

octet-Fine :
    (n c : ℕ) (s : Text) (o : Option ℕ)
    → o ≡ some c
    → IsScalar c
    → Rest n s
    → Fine n (or_panic o >>= λ x. gives (x ∷ []) s)
octet-Fine n c s o e i r = rw e ((i, tt), r)

-- A value of scalar values, or an error.
abbrev Valued : Run (Option Text) → Type 0
Valued (returned o) = IfSome Scalars o
Valued panicked = ⊥
Valued out_of_fuel = ⊥

put-Scalars : (t : Text) (o : Option Text) → Scalars t → IfSome Scalars o → IfSome Scalars (put t o)
put-Scalars t (some u) h k = All-append IsScalar t u h k
put-Scalars t none h k = tt

bind_put-Valued :
    (t : Text) (m : Run (Option Text))
    → Scalars t
    → Valued m
    → Valued (m >>= λ rest. returned (put t rest))
bind_put-Valued t (returned o) h k = put-Scalars t o h k
bind_put-Valued t panicked h k = k
bind_put-Valued t out_of_fuel h k = k

turn-Valued :
    (n : ℕ) (e : Escape) (next : Text → Run (Option Text))
    → Fine n e
    → ((s : Text) → Rest n s → Valued (next s))
    → Valued (
        e >>= λ o.
        match_option o (returned none) (λ p. next p.1 >>= λ rest. returned (put p.0 rest)))
turn-Valued n (returned none) next h k = tt
turn-Valued n (returned (some (t, s))) next h k = bind_put-Valued t (next s) h.0 (k s h.1)
turn-Valued n panicked next h k = h
turn-Valued n out_of_fuel next h k = h

returned_value :
    (m : Run (Option Text))
    → Valued m
    → (value : Option Text) × (m ≡ returned value) × IfSome Scalars value
returned_value (returned o) h = (o, refl, h)
returned_value panicked h = absurd h
returned_value out_of_fuel h = absurd h

Fine-mono : (m n : ℕ) (e : Escape) → m ≤ n → Fine m e → Fine n e
Fine-mono m n (returned none) l h = tt
Fine-mono m n (returned (some r)) l h = (h.0, (h.1.0, omega (arith, l, h.1.1)))
Fine-mono m n panicked l h = h
Fine-mono m n out_of_fuel l h = h

module _ (character : Text → Option ℕ) (names : (s : Text) → IfSome IsScalar (character s))
    (quote_char : ℕ) (quote : IsScalar quote_char) (is_bytes : Bool) where
  escape-Fine :
      (c : ℕ) (s : Text)
      → IsScalar c
      → Scalars s
      → Fine (length s) (escape character quote_char is_bytes c s)
  escape-Fine c s i h =
      let rest : Rest (length s) s = (h, omega arith) in
      escape_lem character quote_char is_bytes (Fine (length s)) c s
        (λ x. elim [
          | inl e ↦ ((subst IsScalar (sym e) quote, tt), rest)
          | inr l ↦ ((inl (omega (arith, l)), tt), rest)
        ])
        (tt, rest)
        (λ e.
          let (x, k, v, r) = parse_octet-Char c s (ground (arith, e)) h in
          octet-Fine (length s) x (parse_octet c s).1 (parse_octet c s).0 k v r)
        (λ k. one_of-Fine (length s) (unicode_literal k s) (unicode_literal-Char k s h))
        (one_of-Fine (length s) (parse_unicode_name character s)
          (parse_unicode_name-Char character names s h))
        ((inl (omega arith), (i, tt)), rest)

  after_backslash-Fine :
      (is_raw : Bool) (n : ℕ) (s : Text)
      → length s ≤ n
      → Scalars s
      → Fine n (after_backslash character quote_char is_bytes is_raw s)
  unfolding after_backslash
  after_backslash-Fine is_raw n [] l h = tt
  after_backslash-Fine is_raw n (c ∷ s) l h =
      if_lem (Fine n) is_raw ((inl (omega arith), (h.0, tt)), (h.1, omega (arith, l)))
        (Fine-mono (length s) n (escape character quote_char is_bytes c s) (omega (arith, l))
          (escape-Fine c s h.0 h.1))

  module _ (triple_quoted is_raw : Bool) where
    eval_char-Fine :
        (c : ℕ) (s : Text)
        → IsScalar c
        → Scalars s
        → Fine (length s) (eval_char character quote_char triple_quoted is_bytes is_raw c s)
    unfolding eval_char
    eval_char-Fine c s i h =
        if_lem (Fine (length s)) (c == b'\\')
          (after_backslash-Fine is_raw (length s) s (omega arith) h)
          (if_lem (Fine (length s)) (c == b'\n' && not triple_quoted || is_bytes && not (ltb c 128))
            tt ((i, tt), (h, omega arith)))

    eval_loop-Valued :
        (f : ℕ) (s : Text)
        → length s < f
        → Scalars s
        → Valued (eval_loop character quote_char triple_quoted is_bytes is_raw f s)
    unfolding eval_loop
    eval_loop-Valued zero s l h = absurd (omega (arith, l))
    eval_loop-Valued (suc f) [] l h = tt
    eval_loop-Valued (suc f) (c ∷ s) l h =
        turn-Valued (length s) (eval_char character quote_char triple_quoted is_bytes is_raw c s)
          (λ t. eval_loop character quote_char triple_quoted is_bytes is_raw f t)
          (eval_char-Fine c s h.0 h.1) (λ t r. eval_loop-Valued f t (omega (arith, l, r.1)) r.0)

    -- On a text of Unicode scalar values, with a quote that is one and names that stand for such,
    -- `str_content_eval` neither panics nor runs out of fuel. It gives an error, or a value that is
    -- made of scalar values.
    pub str_content_eval-Scalars :
        (s : Text)
        → Scalars s
        → (value : Option Text) × (str_content_eval character quote_char triple_quoted is_bytes
              is_raw s
            ≡ returned value)
          × IfSome Scalars value
    unfolding str_content_eval
    str_content_eval-Scalars s h =
        returned_value
          (eval_loop character quote_char triple_quoted is_bytes is_raw (suc (length s)) s)
          (eval_loop-Valued (suc (length s)) s (omega arith) h)
