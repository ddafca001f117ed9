-- ===== src/Lexer/EatsNumber.antt =====
-- Every part of a number eats a front part of the text.
use kclvm.Prelude.{ℕ, refl, Bool, false, not, ◌&&◌, ◌||◌, [], ◌∷◌, Text, ◌==◌, if◌then◌else◌}
use kclvm.Lexer.Kind.{LiteralKind, Base}
use kclvm.Lexer.Cursor.{Cursor, bump, eat_while, peek, peek1th}
use kclvm.Lexer.Number.{
  is_decimal_digit, is_hexadecimal_digit, eat_digits, eat_decimal_digits, eat_hexadecimal_digits,
  eat_float_exponent, is_e, float_exponent, fraction, after_digits, with_prefix, number,
}
use kclvm.Lexer.Scan.{eat_lit_suffix}
use kclvm.Lexer.Eats.{
  LeftOf, LeftOf-refl, LeftOf-cons, if_lem, Eats, Eats-refl, Eats-trans, Eats-bump, Eats-eat_while,
}

-- The parts of a number go with the kind of a literal, or with whether digits were met.
abbrev NumberEats : Cursor → LiteralKind × Cursor → Type 0
NumberEats c r = Eats c r.1

abbrev DigitsLeave : Text → Bool × Text → Type 0
DigitsLeave s r = LeftOf s r.1

Eats-digits : (p : ℕ → Bool) (b : Bool) (s : Text) → LeftOf s (eat_digits p b s).1
unfolding eat_digits
Eats-digits p b [] = LeftOf-refl []
Eats-digits p b (c ∷ s) =
    if_lem (DigitsLeave (c ∷ s)) (c == b'_' || p c)
      (LeftOf-cons c s (eat_digits p (b || not (c == b'_')) s).1
        (Eats-digits p (b || not (c == b'_')) s))
      (LeftOf-refl (c ∷ s))

pub Eats-eat_decimal_digits : (c : Cursor) → Eats c (eat_decimal_digits c).1
unfolding eat_decimal_digits
Eats-eat_decimal_digits c = (Eats-digits is_decimal_digit false c.chars, refl)

pub Eats-eat_hexadecimal_digits : (c : Cursor) → Eats c (eat_hexadecimal_digits c).1
unfolding eat_hexadecimal_digits
Eats-eat_hexadecimal_digits c = (Eats-digits is_hexadecimal_digit false c.chars, refl)

Eats-eat_float_exponent : (c : Cursor) → Eats c (eat_float_exponent c).1
unfolding eat_float_exponent
Eats-eat_float_exponent c =
    Eats-trans c (if peek c == b'-' || peek c == b'+' then bump c else c)
      (eat_decimal_digits (if peek c == b'-' || peek c == b'+' then bump c else c)).1
      (if_lem (λ d. Eats c d) (peek c == b'-' || peek c == b'+') (Eats-bump c) (Eats-refl c))
      (Eats-eat_decimal_digits (if peek c == b'-' || peek c == b'+' then bump c else c))

Eats-float_exponent : (b : Base) (c : Cursor) → Eats c (float_exponent b c).1
unfolding float_exponent
Eats-float_exponent b c =
    Eats-trans c (bump c) (eat_float_exponent (bump c)).1 (Eats-bump c)
      (Eats-eat_float_exponent (bump c))

Eats-fraction : (b : Base) (c : Cursor) → Eats c (fraction b c).1
unfolding fraction
Eats-fraction b c =
    if_lem (NumberEats c) (is_decimal_digit (peek c))
      (if_lem (NumberEats c) (is_e (peek (eat_decimal_digits c).1))
        (Eats-trans c (eat_decimal_digits c).1 (float_exponent b (eat_decimal_digits c).1).1
          (Eats-eat_decimal_digits c) (Eats-float_exponent b (eat_decimal_digits c).1))
        (Eats-eat_decimal_digits c))
      (Eats-refl c)

module _ (is_id_start : ℕ → Bool) where
  Eats-after_digits : (b : Base) (c : Cursor) → Eats c (after_digits is_id_start b c).1
  unfolding after_digits
  Eats-after_digits b c =
      if_lem (NumberEats c)
        (peek c == b'.' && not (peek1th c == b'.') && not (is_id_start (peek1th c)))
        (Eats-trans c (bump c) (fraction b (bump c)).1 (Eats-bump c) (Eats-fraction b (bump c)))
        (if_lem (NumberEats c) (is_e (peek c)) (Eats-float_exponent b c) (Eats-refl c))

  pub Eats-with_prefix :
      (b : Base) (c : Cursor) (r : Bool × Cursor)
      → Eats c r.1
      → Eats c (with_prefix is_id_start b r).1
  unfolding with_prefix
  Eats-with_prefix b c (d, c') h =
      if_lem (NumberEats c) (not d) h
        (Eats-trans c c' (after_digits is_id_start b c').1 h (Eats-after_digits b c'))

  Eats-prefix_digits :
      (b : Base) (c : Cursor) → Eats c (with_prefix is_id_start b (eat_decimal_digits (bump c))).1
  Eats-prefix_digits b c = Eats-with_prefix b c (eat_decimal_digits (bump c)) (
      Eats-trans c (bump c) (eat_decimal_digits (bump c)).1 (Eats-bump c)
        (Eats-eat_decimal_digits (bump c)))

  Eats-decimal :
      (c : Cursor) → Eats c (after_digits is_id_start Base.decimal (eat_decimal_digits c).1).1
  Eats-decimal c =
      Eats-trans c (eat_decimal_digits c).1
        (after_digits is_id_start Base.decimal (eat_decimal_digits c).1).1
        (Eats-eat_decimal_digits c) (Eats-after_digits Base.decimal (eat_decimal_digits c).1)

  pub Eats-number : (x : ℕ) (c : Cursor) → Eats c (number is_id_start x c).1
  unfolding number
  Eats-number x c =
      if_lem (NumberEats c) (x == b'0')
        (if_lem (NumberEats c) (peek c == b'b') (Eats-prefix_digits Base.binary c) (
          if_lem (NumberEats c) (peek c == b'o' || is_decimal_digit (peek c))
            (Eats-prefix_digits Base.octal c)
            (if_lem (NumberEats c) (peek c == b'x')
              (Eats-with_prefix Base.hexadecimal c (eat_hexadecimal_digits (bump c)) (
                Eats-trans c (bump c) (eat_hexadecimal_digits (bump c)).1 (Eats-bump c)
                  (Eats-eat_hexadecimal_digits (bump c))))
              (if_lem (NumberEats c) (peek c == b'_' || peek c == b'.' || is_e (peek c))
                (Eats-decimal c) (Eats-refl c)))))
        (Eats-decimal c)

  pub Eats-eat_lit_suffix :
      (is_id_continue is_emoji : ℕ → Bool) (c : Cursor)
      → Eats c (eat_lit_suffix is_id_start is_id_continue is_emoji c)
  unfolding eat_lit_suffix
  Eats-eat_lit_suffix is_id_continue is_emoji c =
      if_lem (Eats c) (not (is_id_start (peek c))) (Eats-refl c) (
        Eats-trans c (bump c) (eat_while is_id_continue (bump c)) (Eats-bump c)
          (Eats-eat_while is_id_continue (bump c)))
