-- ===== src/Resolver/Scope/Search.antt =====
-- The searches of kclvm/sema/src/resolver/scope.rs from a scope down to its children.
use kclvm.Prelude.{
  ℕ, zero, suc, ◌+◌, ◌≤◌, ◌<◌, Bool, true, false, ◌≡◌, refl, inl, inr, List, [], ◌∷◌, Option, none,
  some, Text, text_eq, length, get_elem?, if◌then◌else◌, All, Bool-cases, arith,
}
use kclvm.Ty.Kind.{Position}
use kclvm.Resolver.Scope.{Scope, ScopeKind, get_object, contains_pos}

module _ (scopes : List Scope) where
  -- Whether the scope at a place contains the position.
  unfoldable pub scope_contains : Position → ℕ → Bool
  scope_contains p i = elim (get_elem? scopes i) [ none ↦ false | some s ↦ contains_pos s p ]

  -- The loops over the children: the first one that contains the position.
  unfoldable pub first_child : Position → List ℕ → Option ℕ
  first_child p [] = none
  first_child p (c ∷ cs) = if scope_contains p c then some c else first_child p cs

  unfoldable pub inner_or :
      (ℕ → Option (Option Scope)) → Option ℕ → Option Scope → Option (Option Scope)
  inner_or inner (some c) otherwise = inner c
  inner_or inner none otherwise = some otherwise

  -- A scope without a parent is the builtin one, which is never the result.
  unfoldable pub inner_in :
      (ℕ → Option (Option Scope)) → Position → Scope → Option ℕ → Option (Option Scope)
  inner_in inner p s none = inner_or inner (first_child p s.children) none
  inner_in inner p s (some q) =
      if contains_pos s p then inner_or inner (first_child p s.children) (some s) else some none

  unfoldable pub inner_at :
      (ℕ → Option (Option Scope)) → Position → Option Scope → Option (Option Scope)
  inner_at inner p none = some none
  inner_at inner p (some s) = inner_in inner p s s.parent

  unfoldable pub inner_most_fuel : ℕ → Position → ℕ → Option (Option Scope)
  inner_most_fuel zero p i = none
  inner_most_fuel (suc n) p i = inner_at (inner_most_fuel n p) p (get_elem? scopes i)

  -- Children stand behind their parents in the list, so its length bounds the depth.
  unfoldable pub inner_most : Position → ℕ → Option (Option Scope)
  inner_most p i = inner_most_fuel (length scopes) p i

  -- The loop over the children for the scope of a schema with the name.
  unfoldable pub is_schema_scope : Text → ℕ → Bool
  is_schema_scope name i = elim (get_elem? scopes i) [
    | none ↦ false
    | some s ↦ elim s.kind [ ScopeKind.schema_scope n ↦ text_eq name n | _ ↦ false ]
  ]

  unfoldable pub first_schema : Text → List ℕ → Option ℕ
  first_schema name [] = none
  first_schema name (c ∷ cs) = if is_schema_scope name c then some c else first_schema name cs

  -- `search_child_scope_by_name`, with the place of the child for the child.
  unfoldable pub search_child_scope_by_name : Text → Scope → Option ℕ
  search_child_scope_by_name name s = elim (get_object s.elems name) [
    | none ↦ none
    | some o ↦ first_schema name s.children
  ]

  -- The children of each scope stand behind it.
  abbrev pub ChildrenAbove : Type 0
  ChildrenAbove =
      (i : ℕ) (s : Scope)
      → get_elem? scopes i ≡ some s
      → All (λ c. (i < c) × (c < length scopes)) s.children

  -- The scope contains the position, and no child of it does.
  abbrev pub IsInnermost : Position → Option Scope → Type 0
  IsInnermost p none = Unit
  IsInnermost p (some s) =
      (contains_pos s p ≡ true) × All (λ c. scope_contains p c ≡ false) s.children

  abbrev pub FindsInnermost : Position → Option (Option Scope) → Type 0
  FindsInnermost p o = (r : Option Scope) × (o ≡ some r) × IsInnermost p r

  -- What `first_child` finds is one of the children; where it finds none, none contains the position.
  abbrev ChildFound : Position → (ℕ → Type 0) → List ℕ → Option ℕ → Type 0
  ChildFound p P cs none = All (λ c. scope_contains p c ≡ false) cs
  ChildFound p P cs (some c) = P c

  first_child-Found :
      (p : Position) (P : ℕ → Type 0) (cs : List ℕ)
      → All P cs
      → ChildFound p P cs (first_child p cs)
  unfolding first_child
  first_child-Found p P [] h = tt
  first_child-Found p P (c ∷ cs) h = elim (Bool-cases (scope_contains p c)) [
    | inl e ↦ rw e h.0
    | inr e ↦ rw e (later (first_child p cs) e (first_child-Found p P cs h.1))
  ]
    where
      later :
          (o : Option ℕ)
          → scope_contains p c ≡ false
          → ChildFound p P cs o
          → ChildFound p P (c ∷ cs) o
      later none e h = (e, h)
      later (some d) e h = h

  module _ (p : Position) (inner : ℕ → Option (Option Scope)) (s : Scope) (P : ℕ → Type 0)
      (below : All P s.children) (ih : (c : ℕ) → P c → FindsInnermost p (inner c)) where
    inner_or-Innermost :
        (o : Option ℕ) (otherwise : Option Scope)
        → ChildFound p P s.children o
        → (All (λ c. scope_contains p c ≡ false) s.children → IsInnermost p otherwise)
        → FindsInnermost p (inner_or inner o otherwise)
    unfolding inner_or
    inner_or-Innermost (some c) otherwise f k = ih c f
    inner_or-Innermost none otherwise f k = (otherwise, refl, k f)

    inner_in-Innermost : (q : Option ℕ) → FindsInnermost p (inner_in inner p s q)
    unfolding inner_in
    inner_in-Innermost none =
        inner_or-Innermost (first_child p s.children) none (first_child-Found p P s.children below)
          (λ a. tt)
    inner_in-Innermost (some q) = elim (Bool-cases (contains_pos s p)) [
      | inl e ↦ rw e (
          inner_or-Innermost (first_child p s.children) (some s)
            (first_child-Found p P s.children below) (λ a. (e, a)))
      | inr e ↦ rw e (none, refl, tt)
    ]

  inner_most_fuel-Innermost :
      (n : ℕ) (p : Position) (i : ℕ)
      → ChildrenAbove
      → i < length scopes
      → length scopes ≤ n + i
      → FindsInnermost p (inner_most_fuel n p i)
  unfolding inner_most_fuel
  inner_most_fuel-Innermost zero p i a m l = absurd (omega arith)
  inner_most_fuel-Innermost (suc n) p i a m l =
      at_place (get_elem? scopes i) refl
        (λ c q. inner_most_fuel-Innermost n p c a q.1 (omega (arith, q.0)))
    where
      at_place :
          (x : Option Scope)
          → get_elem? scopes i ≡ x
          → ((c : ℕ) → (i < c) × (c < length scopes) → FindsInnermost p (inner_most_fuel n p c))
          → FindsInnermost p (inner_at (inner_most_fuel n p) p x)
      at_place none e ih = unfold inner_at in (none, refl, tt)
      at_place (some s) e ih =
          unfold inner_at in
          inner_in-Innermost p (inner_most_fuel n p) s (λ c. (i < c) × (c < length scopes))
            (a i s e) ih s.parent

  -- In a list of scopes whose children stand behind them, `inner_most` from a place in the list
  -- returns, and a scope that it finds contains the position, while no child of that scope does.
  pub inner_most-Innermost :
      (p : Position) (i : ℕ) → ChildrenAbove → i < length scopes → FindsInnermost p (inner_most p i)
  unfolding inner_most
  inner_most-Innermost p i a m = inner_most_fuel-Innermost (length scopes) p i a m (omega arith)
