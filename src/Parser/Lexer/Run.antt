-- ===== src/Parser/Lexer/Run.antt =====
-- What a run of the lexer gives: a value, a panic, or no more fuel.
use kclvm.Prelude.{◌≡◌, refl, sym, subst, Option, none, some}

pub data Run {ℓ} (A : Type ℓ) : Type ℓ where
  returned : A → Run A
  panicked : Run A
  out_of_fuel : Run A

infixl 5 ◌>>=◌
abbrev pub ◌>>=◌ {ℓ κ} : {A : Type ℓ} {B : Type κ} → Run A → (A → Run B) → Run B
returned a >>= f = f a
panicked >>= f = panicked
out_of_fuel >>= f = out_of_fuel

module _ {ℓ} {A : Type ℓ} where
  -- A slice or an index out of bounds panics.
  abbrev pub or_panic : Option A → Run A
  or_panic (some a) = returned a
  or_panic none = panicked

  -- The fuel was enough, and what the run returns has a property.
  abbrev pub Gives : (A → Type 0) → Run A → Type 0
  Gives P (returned a) = P a
  Gives P panicked = Unit
  Gives P out_of_fuel = ⊥

  pub Gives-or_panic :
      (P : A → Type 0) (o : Option A) → ((a : A) → o ≡ some a → P a) → Gives P (or_panic o)
  Gives-or_panic P (some a) h = h a refl
  Gives-or_panic P none h = tt

  pub Gives-imp : (P Q : A → Type 0) (m : Run A) → ((a : A) → P a → Q a) → Gives P m → Gives Q m
  Gives-imp P Q (returned a) f h = f a h
  Gives-imp P Q panicked f h = tt
  Gives-imp P Q out_of_fuel f h = absurd h

pub Gives-both {ℓ} :
    {A : Type ℓ} (P Q : A → Type 0) (m : Run A) → Gives P m → Gives Q m → Gives (λ a. P a × Q a) m
Gives-both P Q (returned a) h k = (h, k)
Gives-both P Q panicked h k = tt
Gives-both P Q out_of_fuel h k = absurd h

pub Gives-bind {ℓ κ} :
    {A : Type ℓ} {B : Type κ} (P : A → Type 0) (Q : B → Type 0) (m : Run A) (f : A → Run B)
    → Gives P m
    → ((a : A) → P a → Gives Q (f a))
    → Gives Q (m >>= f)
Gives-bind P Q (returned a) f h k = k a h
Gives-bind P Q panicked f h k = tt
Gives-bind P Q out_of_fuel f h k = absurd h

-- The run does not panic, and what it returns has a property.
abbrev pub Works {ℓ} : {A : Type ℓ} → (A → Type 0) → Run A → Type 0
Works P (returned a) = P a
Works P panicked = ⊥
Works P out_of_fuel = Unit

pub Works-bind {ℓ κ} :
    {A : Type ℓ} {B : Type κ} (P : A → Type 0) (Q : B → Type 0) (m : Run A) (f : A → Run B)
    → Works P m
    → ((a : A) → P a → Works Q (f a))
    → Works Q (m >>= f)
Works-bind P Q (returned a) f h k = k a h
Works-bind P Q panicked f h k = h
Works-bind P Q out_of_fuel f h k = tt

pub Works-returned {ℓ κ} :
    {A : Type ℓ} {B : Type κ} (Q : B → Type 0) (m : Run A) (f : A → Run B) (a : A)
    → m ≡ returned a
    → Works Q (f a)
    → Works Q (m >>= f)
Works-returned Q m f a e h = subst (λ r. Works Q (r >>= f)) (sym e) h

pub Works-both {ℓ} :
    {A : Type ℓ} (P Q : A → Type 0) (m : Run A) → Gives P m → Works Q m → Works (λ a. P a × Q a) m
Works-both P Q (returned a) h k = (h, k)
Works-both P Q panicked h k = k
Works-both P Q out_of_fuel h k = tt

pub Works-imp {ℓ} :
    {A : Type ℓ} (P Q : A → Type 0) (m : Run A) → ((a : A) → P a → Q a) → Works P m → Works Q m
Works-imp P Q (returned a) f h = f a h
Works-imp P Q panicked f h = h
Works-imp P Q out_of_fuel f h = tt

pub Works-or_panic {ℓ} :
    {A : Type ℓ} (P : A → Type 0) (o : Option A) (a : A) → o ≡ some a → P a → Works P (or_panic o)
Works-or_panic P o a e h = subst (λ p. Works P (or_panic p)) (sym e) h

-- A match on an option.
abbrev pub match_option {ℓ κ} : {A : Type ℓ} {B : Type κ} → Option A → B → (A → B) → B
match_option none x f = x
match_option (some a) x f = f a

pub match_option_lem {ℓ κ} :
    {A : Type ℓ} {B : Type κ} (Q : Option A → Type 0) (P : B → Type 0) (o : Option A) (x : B)
    (f : A → B)
    → Q o
    → (Q none → P x)
    → ((a : A) → Q (some a) → P (f a))
    → P (match_option o x f)
match_option_lem Q P none x f q h k = h q
match_option_lem Q P (some a) x f q h k = k a q
