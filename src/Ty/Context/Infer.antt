-- ===== src/Ty/Context/Infer.antt =====
-- `infer_to_variable_type`: it returns, and what it returns has no literal type and no `None` left.
use kclvm.Prelude.{ℕ, Bool, ◌≡◌, refl, Text, List, [], ◌∷◌, Option, some, All}
use kclvm.Prelude.Pairs.{Member, All-append, All-member, All-imp}
use kclvm.Ty.Kind.{Ty, ty, Tys, nil, cons, TypeKind, F64, of_list}
use kclvm.Ty.Build.{any_ty, bool_ty, int_ty, float_ty, str_ty, list, dict}
use kclvm.Ty.Context.{infer_to_variable_type, infer_kind, infer_members}
use kclvm.Ty.Unify.{of_type_set, sup}
use kclvm.Ty.Unify.Flatten.{leaves, leaves_kind, leaves_members, all_leaves}
use kclvm.Ty.Unify.Sup.{sup_lem}
use kclvm.Ty.WellFormed.{IsWellFormed, TysAreWellFormed}

-- The type of a variable: no literal and no `None`, nor in what lists, dictionaries and unions hold.
abbrev mutual
  pub IsVariableType : Ty → Type 0
  IsVariableType (ty k a f) = KindIsVariableType k

  pub KindIsVariableType : TypeKind → Type 0
  KindIsVariableType TypeKind.none = ⊥
  KindIsVariableType (TypeKind.bool_lit v) = ⊥
  KindIsVariableType (TypeKind.int_lit v) = ⊥
  KindIsVariableType (TypeKind.float_lit v) = ⊥
  KindIsVariableType (TypeKind.str_lit v) = ⊥
  KindIsVariableType (TypeKind.list t) = IsVariableType t
  KindIsVariableType (TypeKind.dict k v) = IsVariableType k × IsVariableType v
  KindIsVariableType (TypeKind.union ts) = TysAreVariableTypes ts
  KindIsVariableType _ = Unit

  pub TysAreVariableTypes : Tys → Type 0
  TysAreVariableTypes nil = Unit
  TysAreVariableTypes (cons t ts) = IsVariableType t × TysAreVariableTypes ts

mutual
  unfolding leaves

  leaves-IsVariableType : (t : Ty) → IsVariableType t → All IsVariableType (leaves t)
  leaves-IsVariableType (ty k a f) v = leaves_kind-IsVariableType k a f v

  leaves_kind-IsVariableType :
      (k : TypeKind) (a : Bool) (f : ℕ)
      → KindIsVariableType k
      → All IsVariableType (leaves_kind k (ty k a f))
  leaves_kind-IsVariableType (TypeKind.union ts) a f v = leaves_members-IsVariableType ts v
  leaves_kind-IsVariableType _ a f v = (v, tt)

  leaves_members-IsVariableType :
      (ts : Tys) → TysAreVariableTypes ts → All IsVariableType (leaves_members ts)
  leaves_members-IsVariableType nil v = tt
  leaves_members-IsVariableType (cons t ts) v =
      All-append IsVariableType (leaves t) (leaves_members ts) (leaves-IsVariableType t v.0)
        (leaves_members-IsVariableType ts v.1)

all_leaves-IsVariableType :
    (ts : List Ty) → All IsVariableType ts → All IsVariableType (all_leaves ts)
unfolding all_leaves
all_leaves-IsVariableType [] v = tt
all_leaves-IsVariableType (t ∷ ts) v =
    All-append IsVariableType (leaves t) (all_leaves ts) (leaves-IsVariableType t v.0)
      (all_leaves-IsVariableType ts v.1)

of_list-IsVariableType : (ts : List Ty) → All IsVariableType ts → TysAreVariableTypes (of_list ts)
of_list-IsVariableType [] v = tt
of_list-IsVariableType (t ∷ ts) v = (v.0, of_list-IsVariableType ts v.1)

of_type_set-IsVariableType :
    (ts : List Ty) → All IsVariableType ts → IsVariableType (of_type_set ts)
unfolding of_type_set
of_type_set-IsVariableType [] v = tt
of_type_set-IsVariableType (t ∷ []) v = v.0
of_type_set-IsVariableType (t ∷ u ∷ ts) v = of_list-IsVariableType (t ∷ u ∷ ts) v

module _ (show_f64 : F64 → Text) where
  abbrev Infers : Option Ty → Type 0
  Infers o = (v : Ty) × (o ≡ some v) × IsWellFormed v × IsVariableType v

  sup-IsVariableType :
      (ts : List Ty) → All IsWellFormed ts → All IsVariableType ts → Infers (sup show_f64 ts)
  sup-IsVariableType ts w v =
      let (kept, e, members, _, _, wf) = sup_lem show_f64 ts w in
      (
        of_type_set kept,
        e,
        wf,
        of_type_set-IsVariableType kept (
            All-imp (λ t. Member t (all_leaves ts)) IsVariableType
              (λ t m.
                All-member IsVariableType (all_leaves ts) t (all_leaves-IsVariableType ts v) m)
              kept members),
      )

  mutual
    unfolding infer_to_variable_type

    infer_ty-Infers : (t : Ty) → IsWellFormed t → Infers (infer_to_variable_type show_f64 t)
    infer_ty-Infers (ty k a f) w = infer_kind-Infers k a f w

    infer_kind-Infers :
        (k : TypeKind) (a : Bool) (f : ℕ)
        → IsWellFormed (ty k a f)
        → Infers (infer_kind show_f64 k (ty k a f))
    infer_kind-Infers TypeKind.none a f w = (any_ty, refl, (refl, tt), tt)
    infer_kind-Infers (TypeKind.bool_lit v) a f w = (bool_ty, refl, (refl, tt), tt)
    infer_kind-Infers (TypeKind.int_lit v) a f w = (int_ty, refl, (refl, tt), tt)
    infer_kind-Infers (TypeKind.float_lit v) a f w = (float_ty, refl, (refl, tt), tt)
    infer_kind-Infers (TypeKind.str_lit v) a f w = (str_ty, refl, (refl, tt), tt)
    infer_kind-Infers (TypeKind.list t) a f w =
        let (v, e, wf, p) = infer_ty-Infers t w.1 in (list v, rw e refl, (refl, wf), p)
    infer_kind-Infers (TypeKind.dict t u) a f w =
        let (v, e, wf, p) = infer_ty-Infers t w.1.0 in
        let (x, d, wx, q) = infer_ty-Infers u w.1.1 in
        (dict v x, rw (e, d) refl, (refl, (wf, wx)), (p, q))
    infer_kind-Infers (TypeKind.union ts) a f w =
        let (us, e, ws, vs) = infer_members-Infers ts w.1 in
        let (v, d, wf, p) = sup-IsVariableType us ws vs in (v, rw e d, wf, p)
    infer_kind-Infers k a f w = (ty k a f, refl, w, tt)

    infer_members-Infers :
        (ts : Tys)
        → TysAreWellFormed ts
        → (us : List Ty) × (infer_members show_f64 ts ≡ some us)
          × All IsWellFormed us
          × All IsVariableType us
    infer_members-Infers nil w = ([], refl, tt, tt)
    infer_members-Infers (cons t ts) w =
        let (v, e, wf, p) = infer_ty-Infers t w.0 in
        let (us, d, ws, vs) = infer_members-Infers ts w.1 in
        (v ∷ us, rw (e, d) refl, (wf, ws), (p, vs))

  -- On a well-formed type `infer_to_variable_type` returns a well-formed type, in which no literal
  -- type and no `None` is left, neither at the top nor in what lists, dictionaries and unions
  -- hold.
  pub infer_to_variable_type-IsVariableType :
      (t : Ty)
      → IsWellFormed t
      → (v : Ty) × (infer_to_variable_type show_f64 t ≡ some v) × IsWellFormed v × IsVariableType v
  infer_to_variable_type-IsVariableType t w = infer_ty-Infers t w
