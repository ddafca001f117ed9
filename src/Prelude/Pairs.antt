-- ===== src/Prelude/Pairs.antt =====
-- Lists whose members are related two by two, the earlier one first.
use mathlib.Core.List.{List, [], ◌∷◌, ◌++◌}
use mathlib.Core.Logic.{◌⊎◌, inl, inr}
use mathlib.Core.Path.{◌≡◌, sym, subst}
use kclvm.Prelude.Monad.{All}

module _ {ℓ} {A : Type ℓ} where
  abbrev pub AllPairs {κ} : (A → A → Type κ) → List A → Type κ
  AllPairs R [] = Unit
  AllPairs R (x ∷ xs) = All (R x) xs × AllPairs R xs

  pub All-append {κ} : (P : A → Type κ) (xs ys : List A) → All P xs → All P ys → All P (xs ++ ys)
  All-append P [] ys h k = k
  All-append P (x ∷ xs) ys h k = (h.0, All-append P xs ys h.1 k)

  pub All-left {κ} : (P : A → Type κ) (xs ys : List A) → All P (xs ++ ys) → All P xs
  All-left P [] ys h = tt
  All-left P (x ∷ xs) ys h = (h.0, All-left P xs ys h.1)

  pub All-right {κ} : (P : A → Type κ) (xs ys : List A) → All P (xs ++ ys) → All P ys
  All-right P [] ys h = h
  All-right P (x ∷ xs) ys h = All-right P xs ys h.1

  pub All-imp {κ μ} :
      (P : A → Type κ) (Q : A → Type μ)
      → ((a : A) → P a → Q a)
      → (xs : List A) → All P xs
      → All Q xs
  All-imp P Q f [] h = tt
  All-imp P Q f (x ∷ xs) h = (f x h.0, All-imp P Q f xs h.1)

  pub All-both {κ μ} :
      (P : A → Type κ) (Q : A → Type μ) (xs : List A)
      → All P xs
      → All Q xs
      → All (λ x. P x × Q x) xs
  All-both P Q [] h k = tt
  All-both P Q (x ∷ xs) h k = ((h.0, k.0), All-both P Q xs h.1 k.1)

module _ {A : Type 0} where
  -- Membership, with the place kept.
  abbrev pub Member : A → List A → Type 0
  Member a [] = ⊥
  Member a (x ∷ xs) = (a ≡ x) ⊎ Member a xs

  pub All-member {κ} : (P : A → Type κ) (xs : List A) (a : A) → All P xs → Member a xs → P a
  All-member P [] a h m = absurd m
  All-member P (x ∷ xs) a h (inl e) = subst P (sym e) h.0
  All-member P (x ∷ xs) a h (inr m) = All-member P xs a h.1 m

  pub Member-left : (xs ys : List A) (a : A) → Member a xs → Member a (xs ++ ys)
  Member-left [] ys a m = absurd m
  Member-left (x ∷ xs) ys a (inl e) = inl e
  Member-left (x ∷ xs) ys a (inr m) = inr (Member-left xs ys a m)

  pub Member-right : (xs ys : List A) (a : A) → Member a ys → Member a (xs ++ ys)
  Member-right [] ys a m = m
  Member-right (x ∷ xs) ys a m = inr (Member-right xs ys a m)
