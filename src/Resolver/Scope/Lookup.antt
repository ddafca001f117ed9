-- ===== src/Resolver/Scope/Lookup.antt =====
-- The scopes of kclvm/sema/src/resolver/scope.rs as a tree in a list, and what `lookup` depends on.
use kclvm.Prelude.{
  ℕ, zero, suc, ◌+◌, ◌≤◌, ◌<◌, false, ◌≡◌, refl, sym, ap, subst, ◌∙◌, inl, inr, List, [], ◌∷◌, ◌++◌,
  Option, none, some, Text, text_eq, text_eq_refl, text_eq→eq, length, get_elem?, set, arith,
  Returns, Bool-cases,
}
use kclvm.Resolver.Scope.{
  Scope, ScopeObject, Elems, get_object, put_object, lookup, lookup_fuel, lookup_at, lookup_in,
}

-- The object that is put under a name is found there.
pub get_object-put_self :
    (es : Elems) (name : Text) (o : ScopeObject) → get_object (put_object es name o) name ≡ some o
unfolding get_object put_object
get_object-put_self [] name o = rw (text_eq_refl name) refl
get_object-put_self (e ∷ es) name o = elim (Bool-cases (text_eq e.0 name)) [
  | inl h ↦ rw (h, h) refl
  | inr h ↦ rw (h, h) (get_object-put_self es name o)
]

-- Other names keep their objects.
pub get_object-put_ne :
    (es : Elems) (name other : Text) (o : ScopeObject)
    → text_eq name other ≡ false
    → get_object (put_object es name o) other ≡ get_object es other
unfolding get_object put_object
get_object-put_ne [] name other o d = rw d refl
get_object-put_ne (e ∷ es) name other o d = elim (Bool-cases (text_eq e.0 name)) [
  | inl h ↦
      let q : text_eq e.0 other ≡ false =
        subst (λ k. text_eq k other ≡ false) (sym (text_eq→eq e.0 name h)) d in
      rw (h, q) refl
  | inr h ↦ rw (h, get_object-put_ne es name other o d) refl
]

-- The parent of a scope stands before it.
abbrev pub ParentBelow : ℕ → Option ℕ → Type 0
ParentBelow i none = Unit
ParentBelow i (some q) = q < i

abbrev pub ParentsBelow : ℕ → List Scope → Type 0
ParentsBelow i [] = Unit
ParentsBelow i (s ∷ ss) = ParentBelow i s.parent × ParentsBelow (suc i) ss

pub ParentsBelow-get :
    (i : ℕ) (ss : List Scope) (k : ℕ) (s : Scope)
    → ParentsBelow i ss
    → get_elem? ss k ≡ some s
    → ParentBelow (i + k) s.parent
ParentsBelow-get i [] k s p e = cc
ParentsBelow-get i (x ∷ ss) zero s p e =
    let q : x ≡ s = cc in
    let z : i + 0 ≡ i = omega arith in rw z (subst (λ y. ParentBelow i y.parent) q p.0)
ParentsBelow-get i (x ∷ ss) (suc k) s p e =
    let z : i + suc k ≡ suc i + k = omega arith in rw z (ParentsBelow-get (suc i) ss k s p.1 e)

pub parent_at :
    (ss : List Scope) (k : ℕ) (s : Scope)
    → ParentsBelow 0 ss
    → get_elem? ss k ≡ some s
    → ParentBelow k s.parent
parent_at ss k s p e =
    let z : 0 + k ≡ k = omega arith in
    subst (λ n. ParentBelow n s.parent) z (ParentsBelow-get 0 ss k s p e)

pub ParentsBelow-set :
    (i : ℕ) (ss : List Scope) (k : ℕ) (s v : Scope)
    → ParentsBelow i ss
    → get_elem? ss k ≡ some s
    → v.parent ≡ s.parent
    → ParentsBelow i (set ss k v)
ParentsBelow-set i [] k s v p e d = tt
ParentsBelow-set i (x ∷ ss) zero s v p e d =
    let q : x ≡ s = cc in (subst (ParentBelow i) (ap (λ (y : Scope). y.parent) q ∙ sym d) p.0, p.1)
ParentsBelow-set i (x ∷ ss) (suc k) s v p e d = (p.0, ParentsBelow-set (suc i) ss k s v p.1 e d)

pub ParentsBelow-append :
    (i : ℕ) (ss : List Scope) (v : Scope)
    → ParentsBelow i ss
    → ParentBelow (i + length ss) v.parent
    → ParentsBelow i (ss ++ v ∷ [])
ParentsBelow-append i [] v p d =
    let z : i + 0 ≡ i = omega arith in (subst (λ n. ParentBelow n v.parent) z d, tt)
ParentsBelow-append i (x ∷ ss) v p d =
    let z : i + suc (length ss) ≡ suc i + length ss = omega arith in
    (p.0, ParentsBelow-append (suc i) ss v p.1 (subst (λ n. ParentBelow n v.parent) z d))

-- One step of `lookup` in a scope, where the steps in the scopes before it return.
module _ (scopes : List Scope) (name : Text) (i : ℕ) (outer : ℕ → Option (Option ScopeObject))
    (ih : (q : ℕ) → q < i → Returns (outer q)) where
  lookup_in-Returns :
      (o : Option ScopeObject) (q : Option ℕ) → ParentBelow i q → Returns (lookup_in outer o q)
  lookup_in-Returns (some o) q b = (some o, refl)
  lookup_in-Returns none none b = (none, refl)
  lookup_in-Returns none (some q) b = ih q b

  lookup_at-Returns :
      (x : Option Scope)
      → get_elem? scopes i ≡ x
      → ParentsBelow 0 scopes
      → Returns (lookup_at outer name x)
  lookup_at-Returns none e p = (none, refl)
  lookup_at-Returns (some s) e p =
      lookup_in-Returns (get_object s.elems name) s.parent (parent_at scopes i s p e)

lookup_fuel-Returns :
    (n : ℕ) (scopes : List Scope) (name : Text) (i : ℕ)
    → ParentsBelow 0 scopes
    → i < n
    → Returns (lookup_fuel n scopes name i)
unfolding lookup_fuel
lookup_fuel-Returns zero scopes name i p m = absurd (omega arith)
lookup_fuel-Returns (suc n) scopes name i p m =
    lookup_at-Returns scopes name i (lookup_fuel n scopes name)
      (λ q b. lookup_fuel-Returns n scopes name q p (omega arith)) (get_elem? scopes i) refl p

-- In a list of scopes whose parents stand before them, `lookup` returns, with or without an object.
pub lookup-Returns :
    (scopes : List Scope) (name : Text) (i : ℕ)
    → ParentsBelow 0 scopes
    → Returns (lookup scopes name i)
unfolding lookup
lookup-Returns scopes name i p = lookup_fuel-Returns (suc i) scopes name i p (omega arith)

-- What `lookup` reads of a scope.
abbrev pub view : Option Scope → Option (Elems × Option ℕ)
view none = none
view (some s) = some (s.elems, s.parent)

-- One step of `lookup` in two lists, where the steps in the scopes before agree.
module _ (a : List Scope) (name : Text) (i : ℕ) (outer outer' : ℕ → Option (Option ScopeObject))
    (ih : (q : ℕ) → q < i → outer q ≡ outer' q) where
  pub lookup_in-agree :
      (o : Option ScopeObject) (q : Option ℕ)
      → ParentBelow i q
      → lookup_in outer o q ≡ lookup_in outer' o q
  lookup_in-agree (some o) q l = refl
  lookup_in-agree none none l = refl
  lookup_in-agree none (some q) l = ih q l

  lookup_at-agree :
      (x y : Option Scope)
      → get_elem? a i ≡ x
      → view x ≡ view y
      → ParentsBelow 0 a
      → lookup_at outer name x ≡ lookup_at outer' name y
  lookup_at-agree none none e w p = refl
  lookup_at-agree none (some z) e w p = cc
  lookup_at-agree (some z) none e w p = cc
  lookup_at-agree (some x) (some y) e w p =
      let c : x.elems ≡ y.elems = cc in
      let d : x.parent ≡ y.parent = cc in
      lookup_in-agree (get_object x.elems name) x.parent (parent_at a i x p e) ∙ rw (c, d) refl

pub lookup_fuel-agree :
    (n m : ℕ) (a b : List Scope) (name : Text) (i : ℕ)
    → ParentsBelow 0 a
    → ((j : ℕ) → j ≤ i → view (get_elem? a j) ≡ view (get_elem? b j))
    → i < n
    → i < m
    → lookup_fuel n a name i ≡ lookup_fuel m b name i
unfolding lookup_fuel
lookup_fuel-agree zero m a b name i p v s t = absurd (omega arith)
lookup_fuel-agree (suc n) zero a b name i p v s t = absurd (omega arith)
lookup_fuel-agree (suc n) (suc m) a b name i p v s t =
    lookup_at-agree a name i (lookup_fuel n a name) (lookup_fuel m b name)
      (λ q l.
        lookup_fuel-agree n m a b name q p (λ j k. v j (omega arith)) (omega arith) (omega arith))
      (get_elem? a i) (get_elem? b i) refl (v i (omega arith)) p

-- `lookup` depends on the objects and parents at the places up to where it starts, and on no others.
pub lookup-agree :
    (a b : List Scope) (name : Text) (i : ℕ)
    → ParentsBelow 0 a
    → ((j : ℕ) → j ≤ i → view (get_elem? a j) ≡ view (get_elem? b j))
    → lookup a name i ≡ lookup b name i
unfolding lookup
lookup-agree a b name i p v =
    lookup_fuel-agree (suc i) (suc i) a b name i p v (omega arith) (omega arith)
