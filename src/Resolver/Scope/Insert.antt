-- ===== src/Resolver/Scope/Insert.antt =====
-- What `insert_object` of kclvm/sema/src/resolver/scope.rs changes for `lookup`.
use kclvm.Prelude.{false, ◌≡◌, refl, sym, ap, some, Text, text_eq, get_elem?, arith}
use kclvm.Resolver.Scope.{
  Scope, ScopeObject, State, lookup, lookup_fuel, with_elems, put_object, get_object, insert_object,
  update,
}
use kclvm.Resolver.Scope.Lookup.{
  get_object-put_self, get_object-put_ne, parent_at, lookup_in-agree, lookup_fuel-agree, view,
}
use kclvm.Resolver.Scope.Nesting.{IsNested, get-update, get-update_ne}

-- In a nested state, an object that is inserted into the current scope is found under its name,
-- whatever the scopes around hold under it; each other name is found or not as before.
pub lookup-insert_object :
    (name : Text) (obj : ScopeObject) (st : State)
    → IsNested st
    → (lookup (insert_object name obj st).scopes name st.scope ≡ some (some obj))
      × ((other : Text)
          → text_eq name other ≡ false
          → lookup (insert_object name obj st).scopes other st.scope
            ≡ lookup st.scopes other st.scope)
unfolding lookup insert_object lookup_fuel
lookup-insert_object name obj st w =
    let (c, q) = w.current in
    let f : Scope → Scope = λ s. with_elems s (put_object s.elems name obj) in
    let now = update st.scopes st.scope f in
    let got : get_elem? now st.scope ≡ some (f c) = get-update f st.scopes st.scope c q in
    (
      rw (got, get_object-put_self c.elems name obj) refl,
      λ other d.
          rw (got, q, get_object-put_ne c.elems name other obj d)
            (lookup_in-agree st.scopes other st.scope (lookup_fuel st.scope now other)
              (lookup_fuel st.scope st.scopes other)
              (λ k m. sym (
                lookup_fuel-agree st.scope st.scope st.scopes now other k w.parents
                  (λ j l. sym (
                    ap view
                      (get-update_ne f st.scopes st.scope j c q (λ e. omega (arith, e, l, m)))))
                  m m))
              (get_object c.elems other) c.parent (parent_at st.scopes st.scope c w.parents q)),
    )
