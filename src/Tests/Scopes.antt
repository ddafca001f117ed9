-- ===== src/Tests/Scopes.antt =====
-- Runs of kclvm/sema/src/resolver/scope.rs.
use kclvm.Prelude.{
  ℕ, ◌≢◌, get_elem?, zero, suc, subst, All, ◌<◌, text_eq_refl, ◌≡◌, refl, [], ◌∷◌, some, none,
  false, codes, List, Text, text_eq, Option, arith,
}
use kclvm.Handler.{dummy_pos}
use kclvm.Ty.Kind.{Ty}
use kclvm.Ty.Build.{int_ty, str_ty}
use kclvm.Ty.Context.{infer_to_variable_type}
use kclvm.Resolver.Scope.{
  Scope, ScopeObject, ScopeObjectKind, ScopeKind, State, lookup, enter_scope, leave_scope,
  insert_object, find_type_in_scope, set_type_to_scope, lookup_type_from_scope, get_object,
}
use kclvm.Resolver.Scope.Nesting.{IsNested, leave_scope-restores, insert_objects}
use kclvm.Resolver.Scope.Insert.{lookup-insert_object}
use kclvm.Resolver.Scope.Types.{lookup_type_from_scope-Reads, set_type_to_scope-infers, Reads}
use kclvm.Resolver.Scope.Children.{enter_scope-ChildrenAbove, Entered, HasNewChild}
use kclvm.Resolver.Scope.Search.{inner_most, inner_most-Innermost, FindsInnermost, ChildrenAbove}
use kclvm.Tests.Data.{show_bits, one, main_pos}

abbrev a_var : Ty → ScopeObject
a_var t = record {
  name = codes "a";
  start = main_pos;
  end = main_pos;
  object_ty = t;
  kind = ScopeObjectKind.variable;
  used = false;
  doc = none;
}

abbrev builtins : Scope
builtins = record {
  parent = none;
  children = 1 ∷ [];
  elems = [];
  start = dummy_pos;
  end = dummy_pos;
  kind = ScopeKind.builtin;
}

abbrev main_scope : Scope
main_scope = record {
  parent = some 0;
  children = [];
  elems = (codes "a", a_var int_ty) ∷ [];
  start = dummy_pos;
  end = dummy_pos;
  kind = ScopeKind.package_scope (codes "main.k" ∷ []);
}

abbrev start_state : State
start_state = record {
  scopes = builtins ∷ main_scope ∷ [];
  scope = 1;
  scope_level = 0;
  local_vars = [];
  handler = [];
}

start_state-IsNested : IsNested start_state
start_state-IsNested = record {
  current = (main_scope, refl);
  parents = (tt, (omega arith, tt));
  level = omega arith;
}

abbrev inserted : List (Text × ScopeObject)
inserted = (codes "a", a_var str_ty) ∷ (codes "b", a_var str_ty) ∷ []

leave_scope-restores_example :
    (out : State) × (leave_scope
        (insert_objects inserted (enter_scope main_pos main_pos ScopeKind.lambda start_state))
      ≡ some out)
    × (out.scope ≡ 1)
    × (out.scope_level ≡ 0)
    × (out.local_vars ≡ [])
    × (out.handler ≡ [])
    × ((name : Text) → lookup out.scopes name out.scope ≡ lookup start_state.scopes name 1)
    × IsNested out
leave_scope-restores_example =
    leave_scope-restores main_pos main_pos ScopeKind.lambda inserted start_state
      start_state-IsNested

lookup-insert_object_example :
    (lookup (insert_object (codes "a") (a_var str_ty) start_state).scopes (codes "a") 1
      ≡ some (some (a_var str_ty)))
    × ((other : Text)
        → text_eq (codes "a") other ≡ false
        → lookup (insert_object (codes "a") (a_var str_ty) start_state).scopes other 1
          ≡ lookup start_state.scopes other 1)
lookup-insert_object_example =
    lookup-insert_object (codes "a") (a_var str_ty) start_state start_state-IsNested

lookup_type_from_scope-Reads_example :
    (found : Option ScopeObject) × (t : Ty) × (out : State) × (lookup start_state.scopes
        (codes "x")
        1
      ≡ some found)
    × (lookup_type_from_scope (codes "x") main_pos start_state ≡ some (t, out))
    × Reads (codes "x") main_pos start_state found t out
lookup_type_from_scope-Reads_example =
    lookup_type_from_scope-Reads (codes "x") main_pos start_state start_state-IsNested

a_is_there : get_object main_scope.elems (codes "a") ≡ some (a_var int_ty)
unfolding get_object
a_is_there = rw (text_eq_refl (codes "a")) refl

set_type_to_scope-infers_example :
    (v : Ty) × (out : State) × (infer_to_variable_type show_bits one ≡ some v)
    × (set_type_to_scope show_bits (codes "a") one main_pos start_state ≡ some out)
    × (find_type_in_scope (codes "a") out ≡ some (some v))
set_type_to_scope-infers_example =
    set_type_to_scope-infers show_bits (codes "a") one main_pos start_state main_scope
      (a_var int_ty) refl a_is_there (refl, tt)

start_state-ChildrenAbove : ChildrenAbove start_state.scopes
start_state-ChildrenAbove zero s e =
    let q : builtins ≡ s = cc in
    subst (λ (x : Scope). All (λ c. (0 < c) × (c < 2)) x.children) q
      ((omega arith, omega arith), tt)
start_state-ChildrenAbove (suc zero) s e =
    let q : main_scope ≡ s = cc in
    subst (λ (x : Scope). All (λ c. (1 < c) × (c < 2)) x.children) q tt
start_state-ChildrenAbove (suc (suc i)) s e = cc

inner_most-Innermost_example :
    FindsInnermost start_state.scopes main_pos (inner_most start_state.scopes main_pos 0)
inner_most-Innermost_example =
    inner_most-Innermost start_state.scopes main_pos 0 start_state-ChildrenAbove (omega arith)

abbrev in_lambda : State
in_lambda = enter_scope main_pos main_pos ScopeKind.lambda start_state

enter_scope-ChildrenAbove_example :
    Entered main_pos main_pos ScopeKind.lambda start_state in_lambda
    × HasNewChild start_state in_lambda
    × ((i : ℕ) (x : Scope)
        → i ≢ start_state.scope
        → get_elem? start_state.scopes i ≡ some x
        → get_elem? in_lambda.scopes i ≡ some x)
    × ChildrenAbove in_lambda.scopes
enter_scope-ChildrenAbove_example =
    enter_scope-ChildrenAbove main_pos main_pos ScopeKind.lambda start_state start_state-IsNested
      start_state-ChildrenAbove
