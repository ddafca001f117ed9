-- ===== src/Ty/Unify/Alias.antt =====
-- A type and its alias in one list: kclvm/sema/src/resolver/node.rs marks the type that a `type`
-- statement names by `is_type_alias`, which `==` compares and `subsume` does not.
use kclvm.Prelude.{Bool, true, false, ◌≡◌, refl, Text, List, [], ◌∷◌, ◌++◌, some, arith}
use kclvm.Ty.Kind.{Ty, TypeKind, F64}
use kclvm.Ty.Equal.{ty_eq, kind_eq, contains_ty}
use kclvm.Ty.Flags.{all_tests}
use kclvm.Ty.Unify.{
  subsume, below_one, remove_sub_types, typeof, sup, of_type_set, add_types_to_type_set,
  add_type_to_type_set,
}
use kclvm.Ty.Unify.Antichain.{Unrelated}
use kclvm.Ty.Unify.Reflexive.{KindIsSelfEqual, subsume_alias}
use kclvm.Ty.WellFormed.{KindIsWellFormed, canonical}

-- The kinds that `typeof` puts in its set: all but unions and `void`.
abbrev pub is_set_kind : TypeKind → Bool
is_set_kind (TypeKind.union ts) = false
is_set_kind TypeKind.void = false
is_set_kind _ = true

keep_set_kind :
    (seen : List Ty) (k : TypeKind) (a : Bool)
    → is_set_kind k ≡ true
    → contains_ty seen (canonical k a) ≡ false
    → add_type_to_type_set seen (canonical k a) ≡ seen ++ canonical k a ∷ []
unfolding add_type_to_type_set all_tests
keep_set_kind seen (TypeKind.union ts) a h e = absurd (ground arith)
keep_set_kind seen TypeKind.void a h e = absurd (ground arith)
keep_set_kind seen _ a h e = rw e refl

alias_differs : (k : TypeKind) → contains_ty (canonical k false ∷ []) (canonical k true) ≡ false
unfolding contains_ty ty_eq
alias_differs k = ground arith

kinds_differ :
    (k j : TypeKind) (a : Bool)
    → kind_eq k j ≡ false
    → contains_ty (canonical k false ∷ canonical k true ∷ []) (canonical j a) ≡ false
unfolding contains_ty ty_eq
kinds_differ k j a h = rw (h, ty_eq) refl

module _ (show_f64 : F64 → Text) where
  triple_set :
      (k j : TypeKind) (a : Bool)
      → is_set_kind k ≡ true
      → is_set_kind j ≡ true
      → kind_eq k j ≡ false
      → add_types_to_type_set [] (canonical k false ∷ canonical k true ∷ canonical j a ∷ [])
        ≡ canonical k false ∷ canonical k true ∷ canonical j a ∷ []
  unfolding add_types_to_type_set
  triple_set k j a h g d =
      rw
        (
          keep_set_kind [] k false h (unfold contains_ty in refl),
          keep_set_kind (canonical k false ∷ []) k true h (alias_differs k),
          keep_set_kind (canonical k false ∷ canonical k true ∷ []) j a g (kinds_differ k j a d),
        )
        refl

  -- Given a well-formed type that equals itself, its alias, and a type of another kind that is
  -- related to neither, where none of them is void or a union, `sup` returns the last type alone,
  -- and the first is not below it: the result is no upper bound.
  pub sup-drops_alias :
      (k j : TypeKind) (a : Bool)
      → is_set_kind k ≡ true
      → is_set_kind j ≡ true
      → kind_eq k j ≡ false
      → KindIsWellFormed k
      → KindIsSelfEqual k
      → ((b : Bool) → Unrelated show_f64 (canonical k b) (canonical j a))
      → (sup show_f64 (canonical k false ∷ canonical k true ∷ canonical j a ∷ [])
          ≡ some (canonical j a))
        × (subsume show_f64 (canonical k false) (canonical j a) false ≡ some false)
  unfolding sup typeof remove_sub_types below_one of_type_set
  sup-drops_alias k j a h g d w s q = (
    rw
        (
          triple_set k j a h g d,
          subsume_alias show_f64 k false true false w s,
          subsume_alias show_f64 k true false false w s,
          (q false).0,
          (q false).1,
          (q true).0,
          (q true).1,
        )
        refl,
    (q false).0,
  )
