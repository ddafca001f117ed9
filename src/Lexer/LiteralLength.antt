-- ===== src/Lexer/LiteralLength.antt =====
-- How long literals are at least, and that a minus is one character.
use kclvm.Prelude.{
  ℕ, ◌≤◌, ◌≡◌, ◌⊎◌, inl, inr, refl, ap, Bool, true, false, not, ◌&&◌, ◌||◌, [], ◌∷◌, Text, ◌==◌,
  arith,
}
use kclvm.Lexer.Kind.{LiteralKind, Base}
use kclvm.Lexer.Cursor.{Cursor, bump, peek, peek1th, len_consumed, str_len, len_utf8}
use kclvm.Lexer.Number.{
  is_decimal_digit, eat_decimal_digits, eat_hexadecimal_digits, is_e, float_exponent, fraction,
  after_digits, with_prefix, number,
}
use kclvm.Lexer.Eats.{if_lem, Eats, str_len-append}
use kclvm.Lexer.EatsNumber.{Eats-eat_decimal_digits, Eats-eat_hexadecimal_digits, Eats-with_prefix}

abbrev pub base_of : LiteralKind → Base
base_of (LiteralKind.int_literal b e) = b
base_of (LiteralKind.float_literal b e) = b
base_of (LiteralKind.str_literal a b) = Base.decimal
base_of (LiteralKind.bool_literal b) = Base.decimal

-- A number is decimal, or two bytes long at least.
abbrev pub Prefixed : LiteralKind × Cursor → Type 0
Prefixed r = (base_of r.0 ≡ Base.decimal) ⊎ (2 ≤ len_consumed r.1)

-- The cursor after the first character of a text.
abbrev pub after_first : ℕ → Text → Cursor
after_first x s = record { initial_len = str_len (x ∷ s); chars = s }

pub len_utf8_pos : (x : ℕ) → 1 ≤ len_utf8 x
unfolding len_utf8
len_utf8_pos x = ground arith

pub one_eaten : (x : ℕ) (s : Text) (c : Cursor) → Eats (after_first x s) c → 1 ≤ len_consumed c
unfolding len_consumed str_len
one_eaten x s c ((front, e), k) =
    omega (arith, k, ap str_len e, str_len-append front c.chars, len_utf8_pos x)

-- Where the second character was eaten too.
pub two_eaten :
    (x y : ℕ) (s : Text) (c : Cursor) → Eats (bump (after_first x (y ∷ s))) c → 2 ≤ len_consumed c
unfolding len_consumed str_len bump
two_eaten x y s c ((front, e), k) =
    omega (arith, k, ap str_len e, str_len-append front c.chars, len_utf8_pos x, len_utf8_pos y)

abbrev IsDecimal : LiteralKind × Cursor → Type 0
IsDecimal r = base_of r.0 ≡ Base.decimal

module _ (is_id_start : ℕ → Bool) where
  after_digits-decimal :
      (c : Cursor) → base_of (after_digits is_id_start Base.decimal c).0 ≡ Base.decimal
  unfolding after_digits fraction float_exponent
  after_digits-decimal c =
      let c1 = bump c in
      let c2 = (eat_decimal_digits c1).1 in
      if_lem IsDecimal (peek c == b'.' && not (peek1th c == b'.') && not (is_id_start (peek1th c)))
        (if_lem IsDecimal (is_decimal_digit (peek c1)) (if_lem IsDecimal (is_e (peek c2)) refl refl)
          refl)
        (if_lem IsDecimal (is_e (peek c)) refl refl)

  prefix_digits-Prefixed :
      (b : Base) (x y : ℕ) (s : Text)
      → Prefixed (with_prefix is_id_start b (eat_decimal_digits (bump (after_first x (y ∷ s)))))
  prefix_digits-Prefixed b x y s =
      let c = bump (after_first x (y ∷ s)) in
      inr (
        two_eaten x y s (with_prefix is_id_start b (eat_decimal_digits c)).1
          (Eats-with_prefix is_id_start b c (eat_decimal_digits c) (Eats-eat_decimal_digits c)))

  pub number-Prefixed : (x : ℕ) (s : Text) → Prefixed (number is_id_start x (after_first x s))
  unfolding number peek is_decimal_digit
  number-Prefixed x [] =
      let zero_only : Prefixed (LiteralKind.int_literal Base.decimal false, after_first x []) =
        inl refl in
      if_lem Prefixed (x == b'0') zero_only
        (inl (after_digits-decimal (eat_decimal_digits (after_first x [])).1))
  number-Prefixed x (y ∷ s) =
      let c = bump (after_first x (y ∷ s)) in
      if_lem Prefixed (x == b'0')
        (if_lem Prefixed (y == b'b') (prefix_digits-Prefixed Base.binary x y s) (
          if_lem Prefixed (y == b'o' || is_decimal_digit y)
            (prefix_digits-Prefixed Base.octal x y s)
            (if_lem Prefixed (y == b'x')
              (inr (
                two_eaten x y s _ (
                  Eats-with_prefix is_id_start Base.hexadecimal c (eat_hexadecimal_digits c)
                    (Eats-eat_hexadecimal_digits c))))
              (if_lem Prefixed (y == b'_' || y == b'.' || is_e y) (inl (after_digits-decimal _))
                (inl refl)))))
        (inl (after_digits-decimal _))

-- A number is no string.
abbrev pub is_number : LiteralKind → Bool
is_number (LiteralKind.int_literal b e) = true
is_number (LiteralKind.float_literal b e) = true
is_number _ = false

abbrev IsNumber : LiteralKind × Cursor → Type 0
IsNumber r = is_number r.0 ≡ true

module _ (is_id_start : ℕ → Bool) where
  after_digits-IsNumber : (b : Base) (c : Cursor) → IsNumber (after_digits is_id_start b c)
  unfolding after_digits fraction float_exponent
  after_digits-IsNumber b c =
      let c1 = bump c in
      let c2 = (eat_decimal_digits c1).1 in
      if_lem IsNumber (peek c == b'.' && not (peek1th c == b'.') && not (is_id_start (peek1th c)))
        (if_lem IsNumber (is_decimal_digit (peek c1)) (if_lem IsNumber (is_e (peek c2)) refl refl)
          refl)
        (if_lem IsNumber (is_e (peek c)) refl refl)

  with_prefix-IsNumber : (b : Base) (r : Bool × Cursor) → IsNumber (with_prefix is_id_start b r)
  unfolding with_prefix
  with_prefix-IsNumber b (d, c) = if_lem IsNumber (not d) refl (after_digits-IsNumber b c)

  pub number-IsNumber : (x : ℕ) (c : Cursor) → is_number (number is_id_start x c).0 ≡ true
  unfolding number
  number-IsNumber x c =
      let decimal : IsNumber (after_digits is_id_start Base.decimal (eat_decimal_digits c).1) =
        after_digits-IsNumber Base.decimal (eat_decimal_digits c).1 in
      let octal : (b : Base) → IsNumber (with_prefix is_id_start b (eat_decimal_digits (bump c))) =
        λ b. with_prefix-IsNumber b (eat_decimal_digits (bump c)) in
      if_lem IsNumber (x == b'0')
        (if_lem IsNumber (peek c == b'b') (octal Base.binary) (
          if_lem IsNumber (peek c == b'o' || is_decimal_digit (peek c)) (octal Base.octal) (
            if_lem IsNumber (peek c == b'x')
              (with_prefix-IsNumber Base.hexadecimal (eat_hexadecimal_digits (bump c)))
              (if_lem IsNumber (peek c == b'_' || peek c == b'.' || is_e (peek c)) decimal refl))))
        decimal
