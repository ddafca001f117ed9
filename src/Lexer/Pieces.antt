-- ===== src/Lexer/Pieces.antt =====
-- The tokens of a text cut it into pieces, and the lexer ends.
use kclvm.Prelude.{
  ℕ, zero, suc, ◌≤◌, ◌<◌, ◌-◌, ◌≡◌, refl, ap, Bool, List, [], ◌∷◌, ◌++◌, some, Text, arith, length,
  length-append,
}
use kclvm.Lexer.Kind.{Token}
use kclvm.Lexer.Cursor.{
  Cursor, new_cursor, str_len, len_utf8, bump, peek, is_eof, len_consumed, reset_len_consumed,
}
use kclvm.Lexer.Scan.{token_kind, token, first_token, tokenize_fuel, tokenize}
use kclvm.Lexer.Eats.{str_len-append}
use kclvm.Lexer.Reads.{Reads, Reads-token_kind, suffix_start}

-- The text is cut into one nonempty piece for each token, of that token's length in bytes.
abbrev pub Pieces : List Token → Text → Type 0
Pieces [] s = s ≡ []
Pieces (t ∷ ts) s =
    (front : Text) × (rest : Text) × (s ≡ front ++ rest)
    × (t.len ≡ str_len front)
    × (1 ≤ t.len)
    × (suffix_start t.kind ≤ t.len)
    × Pieces ts rest

len_utf8_pos : (x : ℕ) → 1 ≤ len_utf8 x
unfolding len_utf8
len_utf8_pos x = ground arith

-- One token, on the text that is left.
abbrev pub Cuts : ℕ → Text → Token × Cursor → Type 0
Cuts x s (t, c) =
    (front : Text) × (x ∷ s ≡ (x ∷ front) ++ c.chars)
    × (t.len ≡ str_len (x ∷ front))
    × (suffix_start t.kind ≤ t.len)

eaten_len :
    (x : ℕ) (s front rest : Text)
    → s ≡ front ++ rest
    → (str_len (x ∷ s) - str_len rest) ≡ str_len (x ∷ front)
unfolding str_len
eaten_len x s front rest e = omega (arith, str_len-append front rest, ap str_len e)

module _ (is_id_start is_id_continue is_emoji : ℕ → Bool) where
  pub token-Cuts :
      (x n : ℕ) (s : Text)
      → Cuts x s (
          token is_id_start is_id_continue is_emoji
            (reset_len_consumed (record { initial_len = n; chars = x ∷ s })))
  unfolding token reset_len_consumed peek bump len_consumed Reads
  token-Cuts x n s =
      let c : Cursor = record { initial_len = str_len (x ∷ s); chars = s } in
      let r = token_kind is_id_start is_id_continue is_emoji x c in
      let h : Reads c r = Reads-token_kind is_id_start is_id_continue is_emoji x c in
      let len : (r.1.initial_len - str_len r.1.chars) ≡ str_len (x ∷ h.0.0.0) =
        omega (arith, h.0.1, eaten_len x s h.0.0.0 r.1.chars h.0.0.1) in
      (h.0.0.0, ap (λ u. x ∷ u) h.0.0.1, len, h.1)

  tokenize_fuel-Pieces :
      (f n : ℕ) (s : Text)
      → length s < f
      → (ts : List Token) × (tokenize_fuel is_id_start is_id_continue is_emoji f
            (record { initial_len = n; chars = s })
          ≡ some ts)
        × Pieces ts s
  unfolding tokenize_fuel is_eof str_len
  tokenize_fuel-Pieces zero n s h = absurd (omega arith)
  tokenize_fuel-Pieces (suc f) n [] h = ([], refl, refl)
  tokenize_fuel-Pieces (suc f) n (x ∷ s) h =
      let r =
        token is_id_start is_id_continue is_emoji
          (reset_len_consumed (record { initial_len = n; chars = x ∷ s })) in
      let (front, e, l, b) = token-Cuts x n s in
      let (ts, k, p) =
        tokenize_fuel-Pieces f r.1.initial_len r.1.chars
          (omega (arith, ap length e, length-append front r.1.chars)) in
      (r.0 ∷ ts, rw k, (x ∷ front, r.1.chars, e, l, omega (arith, len_utf8_pos x), b, p))

  -- `tokenize` ends on every text, whatever characters the other crates take for identifiers and
  -- emoji. Its tokens cut the text into nonempty pieces, each as many bytes long as its token says,
  -- and the suffix of a literal starts inside its piece or at its end.
  pub tokenize-Pieces :
      (input : Text)
      → (ts : List Token) × (tokenize is_id_start is_id_continue is_emoji input ≡ some ts)
        × Pieces ts input
  unfolding tokenize new_cursor
  tokenize-Pieces input =
      tokenize_fuel-Pieces (suc (length input)) (str_len input) input (omega arith)

  pub first_token-len :
      (x : ℕ) (s : Text) → 1 ≤ (first_token is_id_start is_id_continue is_emoji (x ∷ s)).len
  unfolding first_token new_cursor str_len reset_len_consumed
  first_token-len x s =
      let h : Cuts x s (token is_id_start is_id_continue is_emoji (new_cursor (x ∷ s))) =
        token-Cuts x (str_len (x ∷ s)) s in
      omega (arith, h.2, len_utf8_pos x)
