-- ===== src/Resolver/Check/Union.antt =====
-- Dictionaries where kclvm/sema/src/resolver/ty.rs expects a union that has a schema among its members.
use kclvm.Prelude.{Bool, true, false, ◌≡◌, refl, ◌∙◌, some, Text}
use kclvm.Handler.{Handler, add_type_error}
use kclvm.Ty.Kind.{
  Ty, nil, cons, TypeKind, F64, Position, SchemaInfo, OptSchema, Schemas, Attrs, FunctionType,
  schema_type, IndexInfo, some_index,
}
use kclvm.Ty.Unify.{assignable_to}
use kclvm.Ty.WellFormed.{canonical}
use kclvm.Resolver.Check.{
  check_type, check_step, check_index, dict_assignable_to_schema, index_msg, any_check, and_check,
  or_check,
}
use kclvm.Resolver.Check.Fuel.{check_type-fixed_point}

-- The type of a schema with an index signature.
abbrev pub indexed :
    SchemaInfo → OptSchema → OptSchema → Schemas → Attrs → FunctionType → IndexInfo → Ty → Ty → Ty
indexed i base protocol ms attrs f x key val =
    canonical (TypeKind.schema (schema_type i base protocol ms attrs f (some_index x key val)))
      false

abbrev pub dict_of : Ty → Ty → Ty
dict_of key val = canonical (TypeKind.dict key val) false

module _ (show_f64 : F64 → Text) where
  check-indexed :
      (key val sk sv : Ty) (b : Bool) (p : Position) (h : Handler) (i : SchemaInfo)
      (base protocol : OptSchema) (ms : Schemas) (attrs : Attrs) (f : FunctionType) (x : IndexInfo)
      → x.any_other ≡ true
      → assignable_to show_f64 key sk ≡ some b
      → assignable_to show_f64 val sv ≡ some false
      → check_type show_f64 (dict_of key val) (indexed i base protocol ms attrs f x sk sv) p h
        ≡ some (false, add_type_error (index_msg show_f64 sv val) p h)
  check-indexed key val sk sv true p h i base protocol ms attrs f x o e d =
      check_type-fixed_point show_f64 _ _ p h
      ∙ unfold check_step dict_assignable_to_schema check_index in rw (o, e, d) refl
  check-indexed key val sk sv false p h i base protocol ms attrs f x o e d =
      check_type-fixed_point show_f64 _ _ p h
      ∙ unfold check_step dict_assignable_to_schema check_index in rw (o, e, d) refl

  check-dict :
      (key val : Ty) (p : Position) (h : Handler)
      → check_type show_f64 key key p h ≡ some (true, h)
      → check_type show_f64 val val p h ≡ some (true, h)
      → check_type show_f64 (dict_of key val) (dict_of key val) p h ≡ some (true, h)
  check-dict key val p h e d =
      check_type-fixed_point show_f64 _ _ p h ∙ unfold check_step and_check in rw (e, d) refl

  -- A dictionary is checked against the union of a schema with an open index signature and of its
  -- own type. If its values do not fit the signature, the test of its keys against the signature
  -- returns, and its keys and values pass the checks against their own types, the check succeeds,
  -- with the second member, but the handler has got the error on the first.
  pub check_type-reports_matched :
      (key val sk sv : Ty) (b : Bool) (p : Position) (h : Handler) (i : SchemaInfo)
      (base protocol : OptSchema) (ms : Schemas) (attrs : Attrs) (f : FunctionType) (x : IndexInfo)
      → x.any_other ≡ true
      → assignable_to show_f64 key sk ≡ some b
      → assignable_to show_f64 val sv ≡ some false
      → ((k : Handler) → check_type show_f64 key key p k ≡ some (true, k))
      → ((k : Handler) → check_type show_f64 val val p k ≡ some (true, k))
      → check_type show_f64
          (dict_of key val)
          (canonical
            (TypeKind.union
              (cons (indexed i base protocol ms attrs f x sk sv) (cons (dict_of key val) nil)))
            false)
          p
          h
        ≡ some (true, add_type_error (index_msg show_f64 sv val) p h)
  check_type-reports_matched key val sk sv b p h i base protocol ms attrs f x o e d s t =
      let reported = add_type_error (index_msg show_f64 sv val) p h in
      check_type-fixed_point show_f64 _ _ p h
      ∙ unfold check_step any_check or_check in
        rw
          (
            check-indexed key val sk sv b p h i base protocol ms attrs f x o e d,
            check-dict key val p reported (s reported) (t reported),
          )
          refl
