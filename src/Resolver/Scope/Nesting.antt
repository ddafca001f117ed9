-- ===== src/Resolver/Scope/Nesting.antt =====
-- That a scope of kclvm/sema/src/resolver/scope.rs hides what is around it only until it is left.
use kclvm.Prelude.{
  ℕ, zero, suc, ◌+◌, ◌-◌, ◌%◌, ◌^◌, ◌<◌, ◌≡◌, ◌≢◌, refl, sym, ap, subst, ◌∙◌, inl, inr, ◌⊎◌, List,
  [], ◌∷◌, ◌++◌, Option, none, some, Text, length, length-set, get_elem?, set, get_elem?-set_self,
  get_elem?-set_ne, arith,
}
use kclvm.Ty.Kind.{Position}
use kclvm.Resolver.Scope.{
  Scope, ScopeObject, ScopeKind, State, lookup, update, with_elems, with_child, put_object,
  enter_scope, leave_scope, enclosing, insert_object,
}
use kclvm.Resolver.Scope.Lookup.{
  ParentsBelow, ParentsBelow-set, ParentsBelow-append, lookup-agree, view,
}

-- The current scope is there, the parent of each scope stands before it, and the level fits 64 bits.
pub record IsNested (st : State) : Type 0 where
  pub current : (s : Scope) × (get_elem? st.scopes st.scope ≡ some s)
  pub parents : ParentsBelow 0 st.scopes
  pub level : st.scope_level < 2 ^ 64

pub eq_or_ne : (i j : ℕ) → (i ≡ j) ⊎ (i ≢ j)
eq_or_ne i j = omega arith

pub get-bound : {A : Type 0} (xs : List A) (i : ℕ) (a : A) → get_elem? xs i ≡ some a → i < length xs
get-bound [] i a e = cc
get-bound (x ∷ xs) zero a e = omega arith
get-bound (x ∷ xs) (suc i) a e = omega (arith, get-bound xs i a e)

pub get-append_left :
    {A : Type 0} (xs ys : List A) (i : ℕ) → i < length xs → get_elem? (xs ++ ys) i ≡ get_elem? xs i
get-append_left [] ys i m = absurd (omega arith)
get-append_left (x ∷ xs) ys zero m = refl
get-append_left (x ∷ xs) ys (suc i) m = get-append_left xs ys i (omega arith)

pub get-append_length :
    {A : Type 0} (xs : List A) (a : A) → get_elem? (xs ++ a ∷ []) (length xs) ≡ some a
get-append_length [] a = refl
get-append_length (x ∷ xs) a = get-append_length xs a

module _ (f : Scope → Scope) where
  pub update-some :
      (xs : List Scope) (i : ℕ) (s : Scope)
      → get_elem? xs i ≡ some s
      → update xs i f ≡ set xs i (f s)
  update-some xs i s e = rw (update, e) refl

  pub length-update :
      (xs : List Scope) (i : ℕ) (s : Scope)
      → get_elem? xs i ≡ some s
      → length (update xs i f) ≡ length xs
  length-update xs i s e = rw (update-some xs i s e) (length-set xs i (f s))

  pub get-update :
      (xs : List Scope) (i : ℕ) (s : Scope)
      → get_elem? xs i ≡ some s
      → get_elem? (update xs i f) i ≡ some (f s)
  get-update xs i s e =
      rw (update-some xs i s e) (get_elem?-set_self xs i (f s) (get-bound xs i s e))

  pub get-update_ne :
      (xs : List Scope) (i j : ℕ) (s : Scope)
      → get_elem? xs i ≡ some s
      → i ≢ j
      → get_elem? (update xs i f) j ≡ get_elem? xs j
  get-update_ne xs i j s e d = rw (update-some xs i s e) (get_elem?-set_ne xs (f s) d)

-- A scope whose objects and parent stay looks as before, as do all others.
same_view :
    (xs : List Scope) (i : ℕ) (s : Scope) (f : Scope → Scope)
    → get_elem? xs i ≡ some s
    → (f s).elems ≡ s.elems
    → (f s).parent ≡ s.parent
    → (j : ℕ) → view (get_elem? (update xs i f) j) ≡ view (get_elem? xs j)
same_view xs i s f e h k j = elim (eq_or_ne i j) [
  | inl d ↦ rw (sym d, get-update f xs i s e, e, h, k) refl
  | inr d ↦ ap view (get-update_ne f xs i j s e d)
]

-- Scopes built in `st`'s current scope: those of `st` look as before, and the new one hangs below.
record IsInside (st inner : State) : Type 0 where
  current : (s : Scope) × (get_elem? inner.scopes inner.scope ≡ some s) × (s.parent ≡ some st.scope)
  parents : ParentsBelow 0 inner.scopes
  place : inner.scope ≡ length st.scopes
  same :
      (j : ℕ)
      → j < length st.scopes
      → view (get_elem? inner.scopes j) ≡ view (get_elem? st.scopes j)
  level : inner.scope_level ≡ (st.scope_level + 1) % 2 ^ 64
  handler : inner.handler ≡ st.handler

enter_scope-IsInside :
    (s e : Position) (kind : ScopeKind) (st : State)
    → IsNested st
    → IsInside st (enter_scope s e kind st)
unfolding enter_scope
enter_scope-IsInside s e kind st w =
    let (c, q) = w.current in
    let f = with_child (length st.scopes) in
    let before = update st.scopes st.scope f in
    let new : Scope = record {
      parent = some st.scope;
      children = [];
      elems = [];
      start = s;
      end = e;
      kind = kind;
    } in
    let n : length before ≡ length st.scopes = length-update f st.scopes st.scope c q in
    let here = get-bound st.scopes st.scope c q in
    let parents : ParentsBelow 0 before =
      rw (update-some f st.scopes st.scope c q)
        (ParentsBelow-set 0 st.scopes st.scope c (f c) w.parents q refl) in
    record {
      current = (
        new,
        subst (λ k. get_elem? (before ++ new ∷ []) k ≡ some new) n (get-append_length before new),
        refl,
      );
      parents = ParentsBelow-append 0 before new parents (omega arith);
      place = refl;
      same = λ j m.
          ap view (get-append_left before (new ∷ []) j (omega arith))
          ∙ same_view st.scopes st.scope c f q refl refl j;
      level = refl;
      handler = refl;
    }

insert_object-IsInside :
    (name : Text) (obj : ScopeObject) (st inner : State)
    → IsInside st inner
    → IsInside st (insert_object name obj inner)
unfolding insert_object
insert_object-IsInside name obj st inner w =
    let (c, q, p) = w.current in
    let f : Scope → Scope = λ s. with_elems s (put_object s.elems name obj) in
    record {
      current = (f c, get-update f inner.scopes inner.scope c q, p);
      parents =
          rw (update-some f inner.scopes inner.scope c q)
            (ParentsBelow-set 0 inner.scopes inner.scope c (f c) w.parents q refl);
      place = w.place;
      same = λ j m.
          ap view
            (get-update_ne f inner.scopes inner.scope j c q (λ e. omega (arith, e, m, w.place)))
          ∙ w.same j m;
      level = w.level;
      handler = w.handler;
    }

-- Objects that are inserted one after another.
unfoldable pub insert_objects : List (Text × ScopeObject) → State → State
insert_objects [] st = st
insert_objects (o ∷ os) st = insert_objects os (insert_object o.0 o.1 st)

insert_objects-IsInside :
    (os : List (Text × ScopeObject)) (st inner : State)
    → IsInside st inner
    → IsInside st (insert_objects os inner)
unfolding insert_objects
insert_objects-IsInside [] st inner w = w
insert_objects-IsInside (o ∷ os) st inner w =
    insert_objects-IsInside os st (insert_object o.0 o.1 inner)
      (insert_object-IsInside o.0 o.1 st inner w)

level_restored : (l : ℕ) → l < 2 ^ 64 → ((l + 1) % 2 ^ 64 + (2 ^ 64 - 1)) % 2 ^ 64 ≡ l
level_restored l m = omega arith

-- In a nested state, entering a scope, inserting objects into it and leaving it again returns to
-- the scope before, at its level and with its handler: the local variables are cleared, and each
-- name that is looked up is found or not as before, whatever was inserted. The state stays nested.
pub leave_scope-restores :
    (s e : Position) (kind : ScopeKind) (os : List (Text × ScopeObject)) (st : State)
    → IsNested st
    → (out : State) × (leave_scope (insert_objects os (enter_scope s e kind st)) ≡ some out)
      × (out.scope ≡ st.scope)
      × (out.scope_level ≡ st.scope_level)
      × (out.local_vars ≡ [])
      × (out.handler ≡ st.handler)
      × ((name : Text) → lookup out.scopes name out.scope ≡ lookup st.scopes name st.scope)
      × IsNested out
unfolding leave_scope enclosing
leave_scope-restores s e kind os st w =
    let inner = insert_objects os (enter_scope s e kind st) in
    let i =
      insert_objects-IsInside os st (enter_scope s e kind st)
        (enter_scope-IsInside s e kind st w) in
    let (c, q, p) = i.current in
    let (here, there) = w.current in
    let bound = get-bound st.scopes st.scope here there in
    let (outer, found) = seen (i.same st.scope bound) there in
    let out : State = record {
      scopes = inner.scopes;
      scope = st.scope;
      scope_level = (inner.scope_level + (2 ^ 64 - 1)) % 2 ^ 64;
      local_vars = [];
      handler = inner.handler;
    } in
    let level : out.scope_level ≡ st.scope_level =
      ap (λ l. (l + (2 ^ 64 - 1)) % 2 ^ 64) i.level ∙ level_restored st.scope_level w.level in
    (
      out,
      rw (q, p, found) refl,
      refl,
      level,
      refl,
      i.handler,
      λ name.
          lookup-agree inner.scopes st.scopes name st.scope i.parents
            (λ j m. i.same j (omega arith)),
      record { current = (outer, found); parents = i.parents; level = rw level w.level },
    )
  where
    seen :
        {x y : Option Scope} {s : Scope} → view x ≡ view y → y ≡ some s → (t : Scope) × (x ≡ some t)
    seen {x = none} {y = none} h g = cc
    seen {x = none} {y = some z} h g = cc
    seen {x = some t} h g = (t, refl)
