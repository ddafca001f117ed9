-- ===== src/Parser/Lexer/ScalarValues.antt =====
-- The value of a string is made of Unicode scalar values, and computing it neither panics nor runs out of
-- fuel.
use kclvm.Prelude.{
  ℕ, zero, suc, ◌*◌, ◌≤◌, ◌<◌, ◌≡◌, ◌⊎◌, inl, ◌||◌, [], ◌∷◌, Option, none, some, Text, arith, ltb,
  length, ◌==◌, ◌>>=◌,
}
use kclvm.Prelude.Monad.{All}
use kclvm.Lexer.Number.{between}
use kclvm.Lexer.Eats.{if_lem, if_case}
use kclvm.Parser.Lexer.Run.{returned, panicked, out_of_fuel}
use kclvm.Parser.Lexer.Escapes.{
  from_u32, to_digit, add_u32, shl_u32, name_loop, char_of, hex_digits, unicode_literal,
  octal_digits, octal_value, parse_octet, parse_unicode_name,
}
use kclvm.Parser.Lexer.Strings.{Escape, one_of}

-- A code point that is no surrogate.
abbrev pub IsScalar : ℕ → Type 0
IsScalar c = (c < 0xd800) ⊎ ((0xdfff < c) × (c ≤ 0x10ffff))

abbrev pub Scalars : Text → Type 0
Scalars s = All IsScalar s

-- What holds of an optional value, if there is one.
abbrev pub IfSome {ℓ} : {A : Type ℓ} → (A → Type 0) → Option A → Type 0
IfSome P (some a) = P a
IfSome P none = Unit

IfSome-bind {ℓ κ} :
    {A : Type ℓ} {B : Type κ} (P : A → Type 0) (Q : B → Type 0) (o : Option A) (f : A → Option B)
    → IfSome P o
    → ((a : A) → P a → IfSome Q (f a))
    → IfSome Q (o >>= f)
IfSome-bind P Q (some a) f h k = k a h
IfSome-bind P Q none f h k = tt

IfSome-any {ℓ} : {A : Type ℓ} (o : Option A) → IfSome (λ _. Unit) o
IfSome-any (some a) = tt
IfSome-any none = tt

IfSome-imp {ℓ} :
    {A : Type ℓ} (P Q : A → Type 0)
    → ((a : A) → P a → Q a)
    → (o : Option A) → IfSome P o
    → IfSome Q o
IfSome-imp P Q f (some a) h = f a h
IfSome-imp P Q f none h = tt

-- What is left of a text of scalar values.
abbrev pub Rest : ℕ → Text → Type 0
Rest n t = Scalars t × (length t ≤ n)

abbrev pub Char : ℕ → ℕ × Text → Type 0
Char n r = IsScalar r.0 × Rest n r.1

char_of-IsScalar : (p : ℕ) → IfSome IsScalar (char_of p)
unfolding char_of from_u32
char_of-IsScalar p =
    if_case (IfSome IsScalar) (between 0xd800 0xdfff p) (λ _. omega arith)
      (λ h.
        if_case (IfSome IsScalar) (between 0xd800 0xdfff p || ltb 0x10ffff p) (λ _. tt)
          (λ k. ground arith))

hex_digits-Rest :
    (k p : ℕ) (s : Text) → Scalars s → IfSome (λ r. Rest (length s) r.1) (hex_digits k p s)
unfolding hex_digits
hex_digits-Rest zero p s h = (h, omega arith)
hex_digits-Rest (suc k) p [] h = tt
hex_digits-Rest (suc k) p (c ∷ s) h =
    IfSome-bind (λ _. Unit) (λ r. Rest (suc (length s)) r.1) (to_digit 16 c) _
      (IfSome-any (to_digit 16 c))
      (λ d _.
        let q = add_u32 p (shl_u32 d (k * 4)) in
        IfSome-imp (λ r. Rest (length s) r.1) (λ r. Rest (suc (length s)) r.1)
          (λ r l. (l.0, omega (arith, l.1))) (hex_digits k q s) (hex_digits-Rest k q s h.1))

-- At most so many octal digits, and the rest.
abbrev Octals : ℕ → ℕ → Text × Text → Type 0
Octals k n r = All (λ c. (b'0' ≤ c) × (c ≤ b'7')) r.0 × (length r.0 ≤ k) × Rest n r.1

octal_digits-Octals : (k : ℕ) (s : Text) → Scalars s → Octals k (length s) (octal_digits k s)
unfolding octal_digits
octal_digits-Octals zero s h = (tt, omega arith, (h, omega arith))
octal_digits-Octals (suc k) [] h = (tt, omega arith, (tt, omega arith))
octal_digits-Octals (suc k) (c ∷ s) h =
    let (ds, l, (r, n)) = octal_digits-Octals k s h.1 in
    if_case (Octals (suc k) (suc (length s))) (between b'0' b'7' c)
      (λ e. ((ground (arith, e), ds), omega (arith, l), (r, omega (arith, n))))
      (λ e. (tt, omega arith, (h.1, omega arith)))

octal_value-small :
    (first : ℕ) (ds : Text)
    → first ≤ b'7'
    → All (λ c. (b'0' ≤ c) × (c ≤ b'7')) ds
    → length ds ≤ 2
    → octal_value 0 (first ∷ ds) < 0xd800
unfolding octal_value
octal_value-small first [] l h n = omega arith
octal_value-small first (a ∷ []) l h n = omega arith
octal_value-small first (a ∷ b ∷ []) l h n = omega arith
octal_value-small first (a ∷ b ∷ c ∷ ds) l h n = absurd (omega (arith, n))

pub parse_octet-Char :
    (first : ℕ) (s : Text)
    → first ≤ b'7'
    → Scalars s
    → (c : ℕ) × ((parse_octet first s).0 ≡ some c)
      × IsScalar c
      × Rest (length s) (parse_octet first s).1
unfolding parse_octet from_u32
parse_octet-Char first s l h =
    let r = octal_digits 2 s in
    let (ds, n, rest) = octal_digits-Octals 2 s h in
    let small : octal_value 0 (first ∷ r.0) < 0xd800 = octal_value-small first r.0 l ds n in
    (octal_value 0 (first ∷ r.0), ground (arith, small), inl small, rest)

-- What an escape gives: an error, or scalar values and a text that is no longer.
abbrev pub Fine : ℕ → Escape → Type 0
Fine n (returned none) = Unit
Fine n (returned (some r)) = Scalars r.0 × Rest n r.1
Fine n panicked = ⊥
Fine n out_of_fuel = ⊥

pub one_of-Fine : (n : ℕ) (o : Option (ℕ × Text)) → IfSome (Char n) o → Fine n (one_of o)
one_of-Fine n (some r) h = ((h.0, tt), h.1)
one_of-Fine n none h = tt

pub unicode_literal-Char :
    (k : ℕ) (s : Text) → Scalars s → IfSome (Char (length s)) (unicode_literal k s)
unfolding unicode_literal
unicode_literal-Char k s h =
    IfSome-bind (λ r. Rest (length s) r.1) (Char (length s)) (hex_digits k 0 s) _
      (hex_digits-Rest k 0 s h)
      (λ r l.
        IfSome-bind IsScalar (Char (length s)) (char_of r.0) _ (char_of-IsScalar r.0)
          (λ c i. (i, l)))

name_loop-Rest : (s : Text) → Scalars s → IfSome (λ r. Rest (length s) r.1) (name_loop s)
unfolding name_loop
name_loop-Rest [] h = tt
name_loop-Rest (c ∷ s) h =
    let P : Text × Text → Type 0 = λ r. Rest (suc (length s)) r.1 in
    if_lem (IfSome P) (c == b'}') (h.1, omega arith)
      (IfSome-bind P P (name_loop s) _
        (IfSome-imp (λ r. Rest (length s) r.1) P (λ r l. (l.0, omega (arith, l.1))) (name_loop s)
          (name_loop-Rest s h.1))
        (λ r l. l))

module _ (character : Text → Option ℕ) (names : (s : Text) → IfSome IsScalar (character s)) where
  pub parse_unicode_name-Char :
      (s : Text) → Scalars s → IfSome (Char (length s)) (parse_unicode_name character s)
  unfolding parse_unicode_name
  parse_unicode_name-Char [] h = tt
  parse_unicode_name-Char (c ∷ s) h =
      let P : ℕ × Text → Type 0 = Char (suc (length s)) in
      if_lem (IfSome P) (c == b'{')
        (IfSome-bind (λ r. Rest (length s) r.1) P (name_loop s) _ (name_loop-Rest s h.1)
          (λ r l.
            IfSome-bind IsScalar P (character r.0) _ (names r.0)
              (λ x i. (i, (l.0, omega (arith, l.1))))))
        tt
