-- ===== src/Resolver/Scope/Types.antt =====
-- The types that the resolver reads from and writes into the scopes of
-- kclvm/sema/src/resolver/scope.rs.
use kclvm.Prelude.{true, ◌≡◌, refl, Option, none, some, Text, get_elem?, set}
use kclvm.Handler.{add_compile_error, has_diagnostic, new_with_code, Level}
use kclvm.Handler.Kind.{ErrorKind, DiagnosticId}
use kclvm.Handler.Grows.{Extends, add_compile_error-Extends}
use kclvm.Handler.Members.{has_diagnostic-add_diagnostic}
use kclvm.Ty.Kind.{Ty, F64, Position}
use kclvm.Ty.Build.{any_ty}
use kclvm.Ty.Context.{infer_to_variable_type}
use kclvm.Ty.Context.Infer.{infer_to_variable_type-IsVariableType}
use kclvm.Ty.WellFormed.{IsWellFormed}
use kclvm.Resolver.Scope.{
  Scope, ScopeObject, State, lookup, lookup_fuel, with_elems, put_object, get_object, with_ty,
  ty_of, find_type_in_scope, lookup_type_from_scope, set_type_to_scope, or_not_defined,
  not_defined_msg, with_scopes,
}
use kclvm.Resolver.Scope.Lookup.{get_object-put_self, lookup-Returns}
use kclvm.Resolver.Scope.Nesting.{IsNested, get-update, update-some}

-- What `lookup_type_from_scope` does with what is found.
unfoldable pub Reads : Text → Position → State → Option ScopeObject → Ty → State → Type 0
Reads name p st none t out =
    (t ≡ any_ty)
    × (out.scopes ≡ st.scopes)
    × Extends st.handler out.handler
    × (has_diagnostic out.handler (
          new_with_code Level.error (not_defined_msg name) none p
            (some (DiagnosticId.error_id ErrorKind.compile_error)))
        ≡ true)
Reads name p st (some o) t out = (t ≡ o.object_ty) × (out ≡ st)

-- In a nested state `lookup_type_from_scope` returns. If an object is found under the name, it
-- returns the type of the object and changes nothing; else it returns `any`, keeps the scopes, and
-- the handler gets the error that the name is not defined.
pub lookup_type_from_scope-Reads :
    (name : Text) (p : Position) (st : State)
    → IsNested st
    → (found : Option ScopeObject) × (t : Ty) × (out : State) × (lookup st.scopes name st.scope
        ≡ some found)
      × (lookup_type_from_scope name p st ≡ some (t, out))
      × Reads name p st found t out
unfolding lookup_type_from_scope find_type_in_scope Reads
lookup_type_from_scope-Reads name p st w =
    let (found, e) = lookup-Returns st.scopes name st.scope w.parents in
    let r = or_not_defined name p st (ty_of found) in (found, r.0, r.1, e, rw e refl, reads found)
  where
    reads :
        (found : Option ScopeObject)
        → Reads name p st found
            (or_not_defined name p st (ty_of found)).0
            (or_not_defined name p st (ty_of found)).1
    reads none = (
      refl,
      refl,
      add_compile_error-Extends (not_defined_msg name) p st.handler,
      unfold add_compile_error in has_diagnostic-add_diagnostic st.handler _,
    )
    reads (some o) = (refl, refl)

module _ (show_f64 : F64 → Text) where
  -- Where the current scope has an object under the name, `set_type_to_scope` of a well-formed
  -- type returns, and the type that is found under the name then is the type of a variable that
  -- holds a value of the given one.
  pub set_type_to_scope-infers :
      (name : Text) (t : Ty) (p : Position) (st : State) (s : Scope) (o : ScopeObject)
      → get_elem? st.scopes st.scope ≡ some s
      → get_object s.elems name ≡ some o
      → IsWellFormed t
      → (v : Ty) × (out : State) × (infer_to_variable_type show_f64 t ≡ some v)
        × (set_type_to_scope show_f64 name t p st ≡ some out)
        × (find_type_in_scope name out ≡ some (some v))
  unfolding set_type_to_scope find_type_in_scope lookup lookup_fuel
  set_type_to_scope-infers name t p st s o e d w =
      let (v, i, _, _) = infer_to_variable_type-IsVariableType show_f64 t w in
      let f : Scope → Scope = λ x. with_elems s (put_object s.elems name (with_ty o v)) in
      let out = with_scopes st (set st.scopes st.scope (f s)) in
      let got : get_elem? (set st.scopes st.scope (f s)) st.scope ≡ some (f s) =
        rw (update-some f st.scopes st.scope s e) at (get-update f st.scopes st.scope s e) in
      (
        v,
        out,
        i,
        rw e (rw d (rw i refl)),
        rw (got, get_object-put_self s.elems name (with_ty o v)) refl,
      )
