-- ===== src/Resolver/Scope/Children.antt =====
-- That the scopes of kclvm/sema/src/resolver/scope.rs stay a tree in which children stand behind their
-- parents.
use kclvm.Prelude.{
  ℕ, zero, suc, ◌≤◌, ◌<◌, ◌≡◌, sym, subst, ◌∙◌, ◌+◌, ◌≢◌, ◌⊎◌, inl, inr, List, [], ◌∷◌, ◌++◌, some,
  All, length, length-append, get_elem?, arith, refl,
}
use kclvm.Prelude.Pairs.{All-append, All-imp}
use kclvm.Ty.Kind.{Position}
use kclvm.Resolver.Scope.{Scope, ScopeKind, State, enter_scope, update, with_child}
use kclvm.Resolver.Scope.Nesting.{
  IsNested, eq_or_ne, get-append_left, get-append_length, get-bound, get-update, get-update_ne,
  length-update,
}
use kclvm.Resolver.Scope.Search.{ChildrenAbove}

place : (i n : ℕ) → (i < n) ⊎ (n ≤ i)
place i n = omega arith

get-append_right :
    {A : Type 0} (xs : List A) (a b : A) (i : ℕ)
    → length xs ≤ i
    → get_elem? (xs ++ a ∷ []) i ≡ some b
    → a ≡ b
get-append_right [] a b zero m e = cc
get-append_right [] a b (suc i) m e = cc
get-append_right (x ∷ xs) a b zero m e = absurd (omega arith)
get-append_right (x ∷ xs) a b (suc i) m e = get-append_right xs a b i (omega arith) e

-- The places behind `i` in a list of `n` scopes.
abbrev Behind : ℕ → ℕ → ℕ → Type 0
Behind i n c = (i < c) × (c < n)

Behind-weaken : (i n m : ℕ) (cs : List ℕ) → n ≤ m → All (Behind i n) cs → All (Behind i m) cs
Behind-weaken i n m cs l h =
    All-imp (Behind i n) (Behind i m) (λ c q. (q.0, omega (arith, q.1))) cs h

-- The children of each scope stay behind it when a scope is entered.
entered-ChildrenAbove :
    (s e : Position) (kind : ScopeKind) (st : State)
    → IsNested st
    → ChildrenAbove st.scopes
    → ChildrenAbove (enter_scope s e kind st).scopes
unfolding enter_scope
entered-ChildrenAbove s e kind st w a i x g =
    subst (λ n. All (Behind i n) x.children) (sym total)
      (elim (place i (length st.scopes)) [
        | inl m ↦
            earlier m
              (sym (get-append_left before (new ∷ []) i (omega (arith, m, same_length))) ∙ g)
        | inr m ↦
            let q : new ≡ x = get-append_right before new x i (omega (arith, m, same_length)) g in
            subst (λ (y : Scope). All (Behind i (suc (length st.scopes))) y.children) q tt
      ])
  where
    f : Scope → Scope
    f = with_child (length st.scopes)

    before : List Scope
    before = update st.scopes st.scope f

    new : Scope
    new = record {
      parent = some st.scope;
      children = [];
      elems = [];
      start = s;
      end = e;
      kind = kind;
    }

    same_length : length before ≡ length st.scopes
    same_length = length-update f st.scopes st.scope w.current.0 w.current.1

    total : length (before ++ new ∷ []) ≡ suc (length st.scopes)
    total = omega (arith, length-append before (new ∷ []), same_length)

    earlier :
        i < length st.scopes
        → get_elem? before i ≡ some x
        → All (Behind i (suc (length st.scopes))) x.children
    earlier m h = elim (eq_or_ne st.scope i) [
      | inl d ↦
          let (c, there) = w.current in
          let here : get_elem? before i ≡ some (f c) =
            subst (λ j. get_elem? before j ≡ some (f c)) d
              (get-update f st.scopes st.scope c there) in
          let q : f c ≡ x = cc in
          let old = a i c (subst (λ j. get_elem? st.scopes j ≡ some c) d there) in
          subst (λ (y : Scope). All (Behind i (suc (length st.scopes))) y.children) q
            (All-append (Behind i (suc (length st.scopes))) c.children (length st.scopes ∷ [])
              (Behind-weaken i (length st.scopes) (suc (length st.scopes)) c.children (omega arith)
                old)
              ((m, omega arith), tt))
      | inr d ↦
          let (c, there) = w.current in
          let old = a i x (sym (get-update_ne f st.scopes st.scope i c there d) ∙ h) in
          Behind-weaken i (length st.scopes) (suc (length st.scopes)) x.children (omega arith) old
    ]

-- The scope that is entered, and where it stands.
abbrev pub Entered : Position → Position → ScopeKind → State → State → Type 0
Entered s e kind st st' =
    (st'.scope ≡ length st.scopes)
    × (length st'.scopes ≡ length st.scopes + 1)
    × (get_elem? st'.scopes (length st.scopes)
        ≡ some (record {
          parent = some st.scope;
          children = [];
          elems = [];
          start = s;
          end = e;
          kind = kind;
        }))

-- The current scope has the new one as its last child and is else as before.
abbrev pub HasNewChild : State → State → Type 0
HasNewChild st st' =
    (c : Scope) × (get_elem? st.scopes st.scope ≡ some c)
    × (get_elem? st'.scopes st.scope
        ≡ some (record c { children = c.children ++ length st.scopes ∷ [] }))

-- In a nested state whose scopes have their children behind them, entering a scope puts the new
-- scope behind all others, with no children and the current scope as its parent, and makes it the
-- current one. It is added to the children of the scope that was the current one, behind those that
-- it has; all other scopes stay as they are, and the children of each scope stay behind it.
pub enter_scope-ChildrenAbove :
    (s e : Position) (kind : ScopeKind) (st : State)
    → IsNested st
    → ChildrenAbove st.scopes
    → (let st' = enter_scope s e kind st in
        Entered s e kind st st'
        × HasNewChild st st'
        × ((i : ℕ) (x : Scope)
            → i ≢ st.scope
            → get_elem? st.scopes i ≡ some x
            → get_elem? st'.scopes i ≡ some x)
        × ChildrenAbove st'.scopes)
unfolding enter_scope
enter_scope-ChildrenAbove s e kind st w a =
    let (c, there) = w.current in
    let f : Scope → Scope = with_child (length st.scopes) in
    let before : List Scope = update st.scopes st.scope f in
    let new : Scope = record {
      parent = some st.scope;
      children = [];
      elems = [];
      start = s;
      end = e;
      kind = kind;
    } in
    let same : length before ≡ length st.scopes = length-update f st.scopes st.scope c there in
    let old : (i : ℕ)
        → i < length st.scopes
        → get_elem? (before ++ new ∷ []) i ≡ get_elem? before i =
      λ i m. get-append_left before (new ∷ []) i (omega (arith, same, m)) in
    (
      (
        refl,
        omega (arith, length-append before (new ∷ []), same),
        subst (λ n. get_elem? (before ++ new ∷ []) n ≡ some new) same
            (get-append_length before new),
      ),
      (
        c,
        there,
        old st.scope (get-bound st.scopes st.scope c there)
            ∙ get-update f st.scopes st.scope c there,
      ),
      λ i x d g.
          old i (get-bound st.scopes i x g)
          ∙ get-update_ne f st.scopes st.scope i c there (λ q. d (sym q))
          ∙ g,
      entered-ChildrenAbove s e kind st w a,
    )
