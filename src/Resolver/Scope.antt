-- ===== src/Resolver/Scope.antt =====
-- kclvm/sema/src/resolver/scope.rs: the tree of scopes and the operations of the resolver on it. The
-- scopes, which the source shares by `Rc` and links to their parents by `Weak`, stand in a list, and a
-- link is a place in it. `none` is a panic, and of `lookup` that the fuel ran out.
pub mod Lookup
pub mod Nesting
pub mod Insert
pub mod Types
pub mod Search
pub mod Children
use kclvm.Prelude.{
  ℕ, zero, suc, ◌+◌, ◌-◌, ◌%◌, ◌^◌, Bool, true, false, ◌&&◌, List, [], ◌∷◌, ◌++◌, Option, none,
  some, Text, codes, text_eq, length, get_elem?, set, if◌then◌else◌, ◌==◌, ◌>>=◌, any,
}
use kclvm.Handler.{Handler, is_valid, less_equal, add_compile_error}
use kclvm.Ty.Kind.{Ty, F64, Position}
use kclvm.Ty.Build.{any_ty}
use kclvm.Ty.Context.{infer_to_variable_type}

pub data ScopeObjectKind : Type 0 where
  variable attribute definition parameter type_alias module_object : ScopeObjectKind

pub record ScopeObject : Type 0 where
  pub name : Text
  pub start : Position
  pub end : Position
  pub object_ty : Ty
  pub kind : ScopeObjectKind
  pub used : Bool
  pub doc : Option Text

unfoldable pub pos_is_valid : ScopeObject → Bool
pos_is_valid o = is_valid o.start && is_valid o.end

-- A package scope holds the names of its files.
pub data ScopeKind : Type 0 where
  package_scope : List Text → ScopeKind
  builtin : ScopeKind
  schema_scope : Text → ScopeKind
  loop cond_stmt lambda config : ScopeKind

-- `IndexMap<String, Rc<RefCell<ScopeObject>>>`, in insertion order.
abbrev pub Elems : Type 0
Elems = List (Text × ScopeObject)

unfoldable pub get_object : Elems → Text → Option ScopeObject
get_object [] name = none
get_object (e ∷ es) name = if text_eq e.0 name then some e.1 else get_object es name

-- A new key goes to the end, and the value of a key that is there is replaced in its place.
unfoldable pub put_object : Elems → Text → ScopeObject → Elems
put_object [] name obj = (name, obj) ∷ []
put_object (e ∷ es) name obj =
    if text_eq e.0 name then (e.0, obj) ∷ es else e ∷ put_object es name obj

pub record Scope : Type 0 where
  pub parent : Option ℕ
  pub children : List ℕ
  pub elems : Elems
  pub start : Position
  pub end : Position
  pub kind : ScopeKind

abbrev pub with_elems : Scope → Elems → Scope
with_elems s es = record {
  parent = s.parent;
  children = s.children;
  elems = es;
  start = s.start;
  end = s.end;
  kind = s.kind;
}

abbrev pub with_child : ℕ → Scope → Scope
with_child child s = record {
  parent = s.parent;
  children = s.children ++ child ∷ [];
  elems = s.elems;
  start = s.start;
  end = s.end;
  kind = s.kind;
}

-- `Scope::lookup`: the scope's own objects, then those of the scopes around it.
abbrev pub lookup_in :
    (ℕ → Option (Option ScopeObject)) → Option ScopeObject → Option ℕ → Option (Option ScopeObject)
lookup_in outer (some o) parent = some (some o)
lookup_in outer none none = some none
lookup_in outer none (some q) = outer q

abbrev pub lookup_at :
    (ℕ → Option (Option ScopeObject)) → Text → Option Scope → Option (Option ScopeObject)
lookup_at outer name none = some none
lookup_at outer name (some s) = lookup_in outer (get_object s.elems name) s.parent

unfoldable pub lookup_fuel : ℕ → List Scope → Text → ℕ → Option (Option ScopeObject)
lookup_fuel zero scopes name i = none
lookup_fuel (suc n) scopes name i = lookup_at (lookup_fuel n scopes name) name (get_elem? scopes i)

-- A parent stands before its children in the list, so the place bounds the depth.
unfoldable pub lookup : List Scope → Text → ℕ → Option (Option ScopeObject)
lookup scopes name i = lookup_fuel (suc i) scopes name i

abbrev pub with_ty : ScopeObject → Ty → ScopeObject
with_ty o t = record {
  name = o.name;
  start = o.start;
  end = o.end;
  object_ty = t;
  kind = o.kind;
  used = o.used;
  doc = o.doc;
}

-- `Scope::set_ty`.
unfoldable pub set_ty : Scope → Text → Ty → Bool × Scope
set_ty s name t = elim (get_object s.elems name) [
  | none ↦ (false, s)
  | some o ↦ (true, with_elems s (put_object s.elems name (with_ty o t)))
]

unfoldable pub contains_pos : Scope → Position → Bool
contains_pos s p = elim s.kind [
  | ScopeKind.package_scope files ↦ any (λ f. text_eq f p.filename) files
  | _ ↦ less_equal s.start p && less_equal p s.end
]

-- The part of `Resolver` that these operations use.
pub record State : Type 0 where
  pub scopes : List Scope
  pub scope : ℕ
  pub scope_level : ℕ
  pub local_vars : List Text
  pub handler : Handler

abbrev pub update : List Scope → ℕ → (Scope → Scope) → List Scope
update scopes i f = elim (get_elem? scopes i) [ none ↦ scopes | some s ↦ set scopes i (f s) ]

-- `scope_level` is a `usize`, here of 64 bits, which wraps around.
unfoldable pub enter_scope : Position → Position → ScopeKind → State → State
enter_scope s e k st = record {
  scopes =
      update st.scopes st.scope (with_child (length st.scopes))
      ++ record { parent = some st.scope; children = []; elems = []; start = s; end = e; kind = k }
        ∷ [];
  scope = length st.scopes;
  scope_level = (st.scope_level + 1) % 2 ^ 64;
  local_vars = st.local_vars;
  handler = st.handler;
}

-- The parent of the current scope, which must be there.
unfoldable pub enclosing : State → Option ℕ
enclosing st = do
  s ← get_elem? st.scopes st.scope
  q ← s.parent
  parent ← get_elem? st.scopes q
  some q

unfoldable pub leave_scope : State → Option State
leave_scope st = do
  q ← enclosing st
  some (record {
    scopes = st.scopes;
    scope = q;
    scope_level = (st.scope_level + (2 ^ 64 - 1)) % 2 ^ 64;
    local_vars = [];
    handler = st.handler;
  })

abbrev pub ty_of : Option ScopeObject → Option Ty
ty_of none = none
ty_of (some o) = some o.object_ty

unfoldable pub find_type_in_scope : Text → State → Option (Option Ty)
find_type_in_scope name st = do found ← lookup st.scopes name st.scope; some (ty_of found)

-- `name.replace('@', "")`.
unfoldable pub without_at : Text → Text
without_at [] = []
without_at (c ∷ s) = if c == 64 then without_at s else c ∷ without_at s

unfoldable pub not_defined_msg : Text → Text
not_defined_msg name = codes "name '" ++ without_at name ++ codes "' is not defined"

abbrev pub with_handler : State → Handler → State
with_handler st h = record {
  scopes = st.scopes;
  scope = st.scope;
  scope_level = st.scope_level;
  local_vars = st.local_vars;
  handler = h;
}

abbrev pub with_scopes : State → List Scope → State
with_scopes st scopes = record {
  scopes = scopes;
  scope = st.scope;
  scope_level = st.scope_level;
  local_vars = st.local_vars;
  handler = st.handler;
}

abbrev pub or_not_defined : Text → Position → State → Option Ty → Ty × State
or_not_defined name p st (some t) = (t, st)
or_not_defined name p st none =
    (any_ty, with_handler st (add_compile_error (not_defined_msg name) p st.handler))

unfoldable pub lookup_type_from_scope : Text → Position → State → Option (Ty × State)
lookup_type_from_scope name p st = do
  found ← find_type_in_scope name st
  some (or_not_defined name p st found)

unfoldable pub insert_object : Text → ScopeObject → State → State
insert_object name obj st =
    with_scopes st (update st.scopes st.scope (λ s. with_elems s (put_object s.elems name obj)))

unfoldable pub contains_object : Text → State → Bool
contains_object name st = elim (get_elem? st.scopes st.scope) [
  | none ↦ false
  | some s ↦ elim (get_object s.elems name) [ none ↦ false | some o ↦ true ]
]

module _ (show_f64 : F64 → Text) where
  -- With the object that the current scope has under the name.
  abbrev pub set_found : Text → Ty → Position → State → Scope → Option ScopeObject → Option State
  set_found name t p st s none =
      some (with_handler st (add_compile_error (not_defined_msg name) p st.handler))
  set_found name t p st s (some o) = do
    v ← infer_to_variable_type show_f64 t
    some (
        with_scopes st
          (set st.scopes st.scope (with_elems s (put_object s.elems name (with_ty o v)))))

  unfoldable pub set_type_to_scope : Text → Ty → Position → State → Option State
  set_type_to_scope name t p st = do
    s ← get_elem? st.scopes st.scope
    set_found name t p st s (get_object s.elems name)
