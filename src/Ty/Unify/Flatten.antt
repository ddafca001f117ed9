-- ===== src/Ty/Unify/Flatten.antt =====
-- Steps 1 and 2 of `typeof` against a reference: flatten the unions, then keep the first of equals.
use kclvm.Prelude.{not, ◌&&◌, ◌≡◌, refl, List, [], ◌∷◌, ◌++◌, if◌then◌else◌}
use kclvm.Ty.Kind.{Ty, ty, Tys, nil, cons, TypeKind}
use kclvm.Ty.Flags.{is_void}
use kclvm.Ty.Equal.{contains_ty}
use kclvm.Ty.Unify.{add_type_to_type_set, add_kind_to_type_set, add_members, add_types_to_type_set}

-- The types that are no unions inside a type, from left to right.
unfoldable mutual
  pub leaves : Ty → List Ty
  leaves (ty k a f) = leaves_kind k (ty k a f)

  pub leaves_kind : TypeKind → Ty → List Ty
  leaves_kind (TypeKind.union ts) t = leaves_members ts
  leaves_kind k t = t ∷ []

  pub leaves_members : Tys → List Ty
  leaves_members nil = []
  leaves_members (cons t ts) = leaves t ++ leaves_members ts

unfoldable pub all_leaves : List Ty → List Ty
all_leaves [] = []
all_leaves (t ∷ ts) = leaves t ++ all_leaves ts

-- The types that are not void, each once, in the order of their first occurrences.
abbrev pub keep : List Ty → Ty → List Ty
keep seen t = if not (is_void t) && not (contains_ty seen t) then seen ++ t ∷ [] else seen

unfoldable pub distinct : List Ty → List Ty → List Ty
distinct seen [] = seen
distinct seen (t ∷ ts) = distinct (keep seen t) ts

distinct-append : (seen xs ys : List Ty) → distinct seen (xs ++ ys) ≡ distinct (distinct seen xs) ys
unfolding distinct
distinct-append seen [] ys = refl
distinct-append seen (x ∷ xs) ys = distinct-append (keep seen x) xs ys

mutual
  unfolding add_type_to_type_set leaves distinct

  add_type-distinct :
      (seen : List Ty) (t : Ty) → add_type_to_type_set seen t ≡ distinct seen (leaves t)
  add_type-distinct seen (ty k a f) = add_kind-distinct seen k (ty k a f)

  add_kind-distinct :
      (seen : List Ty) (k : TypeKind) (t : Ty)
      → add_kind_to_type_set seen k t ≡ distinct seen (leaves_kind k t)
  add_kind-distinct seen (TypeKind.union ts) t = add_members-distinct seen ts
  add_kind-distinct seen _ t = refl

  add_members-distinct :
      (seen : List Ty) (ts : Tys) → add_members seen ts ≡ distinct seen (leaves_members ts)
  add_members-distinct seen nil = refl
  add_members-distinct seen (cons t ts) =
      rw (add_type-distinct seen t, distinct-append)
        (add_members-distinct (distinct seen (leaves t)) ts)

-- The type set that `typeof` builds is the reference: the types inside the given ones that are no
-- unions and not void, from left to right, each added if no equal one is there.
pub add_types-distinct :
    (seen ts : List Ty) → add_types_to_type_set seen ts ≡ distinct seen (all_leaves ts)
unfolding add_types_to_type_set all_leaves
add_types-distinct seen [] = unfold distinct in refl
add_types-distinct seen (t ∷ ts) =
    rw (add_type-distinct seen t, distinct-append)
      (add_types-distinct (distinct seen (leaves t)) ts)
