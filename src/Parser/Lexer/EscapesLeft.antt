-- ===== src/Parser/Lexer/EscapesLeft.antt =====
-- What the escapes leave of the text is not longer than the text.
use kclvm.Prelude.{
  ℕ, zero, suc, ◌*◌, ◌≤◌, [], ◌∷◌, Option, none, some, Text, arith, length, ◌==◌, ◌>>=◌,
}
use kclvm.Lexer.Number.{between}
use kclvm.Lexer.Eats.{if_lem}
use kclvm.Parser.Lexer.Escapes.{
  hex_digits, to_digit, add_u32, shl_u32, char_of, unicode_literal, octal_digits, name_loop,
  parse_unicode_name,
}

-- What is left, if anything is returned, is of bounded length.
abbrev pub Left {ℓ} : {A : Type ℓ} → ℕ → Option (A × Text) → Type 0
Left n (some r) = length r.1 ≤ n
Left n none = Unit

module _ {ℓ κ} {A : Type ℓ} {B : Type κ} (n : ℕ) where
  Left-bind_any :
      (o : Option A) (f : A → Option (B × Text)) → ((a : A) → Left n (f a)) → Left n (o >>= f)
  Left-bind_any (some a) f h = h a
  Left-bind_any none f h = tt

  Left-bind :
      (o : Option (A × Text)) (f : A × Text → Option (B × Text))
      → Left n o
      → ((r : A × Text) → length r.1 ≤ n → Left n (f r))
      → Left n (o >>= f)
  Left-bind (some r) f h k = k r h
  Left-bind none f h k = tt

pub Left-mono {ℓ} : {A : Type ℓ} (m n : ℕ) → m ≤ n → (o : Option (A × Text)) → Left m o → Left n o
Left-mono m n h (some r) k = omega (arith, h, k)
Left-mono m n h none k = tt

Left-hex_digits : (k p : ℕ) (s : Text) → Left (length s) (hex_digits k p s)
unfolding hex_digits
Left-hex_digits zero p s = omega arith
Left-hex_digits (suc k) p [] = tt
Left-hex_digits (suc k) p (c ∷ s) =
    Left-bind_any (suc (length s)) (to_digit 16 c)
      (λ d. hex_digits k (add_u32 p (shl_u32 d (k * 4))) s)
      (λ d.
        Left-mono (length s) (suc (length s)) (omega arith)
          (hex_digits k (add_u32 p (shl_u32 d (k * 4))) s)
          (Left-hex_digits k (add_u32 p (shl_u32 d (k * 4))) s))

pub Left-unicode_literal : (k : ℕ) (s : Text) → Left (length s) (unicode_literal k s)
unfolding unicode_literal
Left-unicode_literal k s =
    Left-bind (length s) (hex_digits k 0 s) (λ r. char_of r.0 >>= λ c. some (c, r.1))
      (Left-hex_digits k 0 s)
      (λ r h. Left-bind_any (length s) (char_of r.0) (λ c. some (c, r.1)) (λ c. h))

pub octal_digits-length : (k : ℕ) (s : Text) → length (octal_digits k s).1 ≤ length s
unfolding octal_digits
octal_digits-length zero s = omega arith
octal_digits-length (suc k) [] = omega arith
octal_digits-length (suc k) (c ∷ s) =
    if_lem (λ (r : Text × Text). length r.1 ≤ suc (length s)) (between b'0' b'7' c)
      (omega (arith, octal_digits-length k s)) (omega arith)

Left-name_loop : (s : Text) → Left (length s) (name_loop s)
unfolding name_loop
Left-name_loop [] = tt
Left-name_loop (c ∷ s) = if_lem (Left (suc (length s))) (c == b'}') (omega arith) (
    Left-bind (suc (length s)) (name_loop s) (λ r. some (c ∷ r.0, r.1))
      (Left-mono (length s) (suc (length s)) (omega arith) (name_loop s) (Left-name_loop s))
      (λ r h. h))

pub Left-parse_unicode_name :
    (character : Text → Option ℕ) (s : Text) → Left (length s) (parse_unicode_name character s)
unfolding parse_unicode_name
Left-parse_unicode_name character [] = tt
Left-parse_unicode_name character (c ∷ s) =
    if_lem (Left (suc (length s))) (c == b'{')
      (Left-bind (suc (length s)) (name_loop s) (λ r. character r.0 >>= λ x. some (x, r.1))
        (Left-mono (length s) (suc (length s)) (omega arith) (name_loop s) (Left-name_loop s))
        (λ r h. Left-bind_any (suc (length s)) (character r.0) (λ x. some (x, r.1)) (λ x. h)))
      tt
