-- ===== src/Lexer/Eats.antt =====
-- What the parts of the lexer leave: each eats a front part of the text, and keeps where the token began.
use kclvm.Prelude.{
  ℕ, ◌+◌, ◌≤◌, ◌≡◌, refl, ap, ◌∙◌, Bool, true, false, [], ◌∷◌, ◌++◌, Text, arith, if◌then◌else◌,
}
use kclvm.Lexer.Cursor.{Cursor, str_len, bump, eat_while, drop_while, tail_of, len_consumed}

-- The second text is what is left of the first.
abbrev pub LeftOf : Text → Text → Type 0
LeftOf s t = (front : Text) × (s ≡ front ++ t)

pub LeftOf-refl : (s : Text) → LeftOf s s
LeftOf-refl s = ([], refl)

append_assoc : (a b c : Text) → a ++ (b ++ c) ≡ (a ++ b) ++ c
append_assoc [] b c = refl
append_assoc (x ∷ a) b c = ap (λ t. x ∷ t) (append_assoc a b c)

pub LeftOf-trans : (s t u : Text) → LeftOf s t → LeftOf t u → LeftOf s u
LeftOf-trans s t u (a, e) (b, k) = (a ++ b, e ∙ ap (λ x. a ++ x) k ∙ append_assoc a b u)

pub LeftOf-cons : (x : ℕ) (s t : Text) → LeftOf s t → LeftOf (x ∷ s) t
LeftOf-cons x s t (a, e) = (x ∷ a, ap (λ u. x ∷ u) e)

pub LeftOf-tail_of : (s : Text) → LeftOf s (tail_of s)
LeftOf-tail_of [] = ([], refl)
LeftOf-tail_of (x ∷ s) = (x ∷ [], refl)

pub if_lem {ℓ κ} :
    {A : Type ℓ} (P : A → Type κ) (b : Bool) {x y : A} → P x → P y → P (if b then x else y)
if_lem P true h k = h
if_lem P false h k = k

pub if_case {ℓ κ} :
    {A : Type ℓ} (P : A → Type κ) (b : Bool) {x y : A}
    → (b ≡ true → P x)
    → (b ≡ false → P y)
    → P (if b then x else y)
if_case P true h k = h refl
if_case P false h k = k refl

pub elim_lem {ℓ κ} :
    {A : Type ℓ} (P : A → Type κ) (b : Bool) {x y : A}
    → P x
    → P y
    → P (elim b as (λ _. A) [ true ↦ x | false ↦ y ])
elim_lem P true h k = h
elim_lem P false h k = k

pub str_len-append : (s t : Text) → str_len (s ++ t) ≡ str_len s + str_len t
unfolding str_len
str_len-append [] t = omega arith
str_len-append (x ∷ s) t = omega (arith, str_len-append s t)

pub LeftOf-drop_while : (p : ℕ → Bool) (s : Text) → LeftOf s (drop_while p s)
unfolding drop_while
LeftOf-drop_while p [] = LeftOf-refl []
LeftOf-drop_while p (x ∷ s) =
    if_lem (λ r. LeftOf (x ∷ s) r) (p x) (LeftOf-cons x s (drop_while p s) (LeftOf-drop_while p s))
      (LeftOf-refl (x ∷ s))

-- The cursor moved on.
abbrev pub Eats : Cursor → Cursor → Type 0
Eats c c' = LeftOf c.chars c'.chars × (c'.initial_len ≡ c.initial_len)

pub Eats-refl : (c : Cursor) → Eats c c
Eats-refl c = (LeftOf-refl c.chars, refl)

pub Eats-trans : (a b c : Cursor) → Eats a b → Eats b c → Eats a c
Eats-trans a b c h k = (LeftOf-trans a.chars b.chars c.chars h.0 k.0, k.1 ∙ h.1)

pub Eats-bump : (c : Cursor) → Eats c (bump c)
unfolding bump
Eats-bump c = (LeftOf-tail_of c.chars, refl)

pub Eats-eat_while : (p : ℕ → Bool) (c : Cursor) → Eats c (eat_while p c)
unfolding eat_while
Eats-eat_while p c = (LeftOf-drop_while p c.chars, refl)

-- What was eaten is counted.
pub len_consumed_mono : (c c' : Cursor) → Eats c c' → len_consumed c ≤ len_consumed c'
unfolding len_consumed
len_consumed_mono c c' ((front, e), k) = omega (arith, str_len-append front c'.chars, ap str_len e)
