-- ===== src/Ty/Context.antt =====
-- kclvm/sema/src/ty/context.rs: the type of a variable that holds a value of a given type, and the
-- tests on a type or on all members of a union. kclvm/sema/src/ty/walker.rs: the walk over a type.
pub mod Infer
pub mod Walk
use kclvm.Prelude.{
  ℕ, zero, suc, Text, Bool, List, [], ◌∷◌, Option, none, some, ◌>>=◌, if◌then◌else◌, all, any,
}
use kclvm.Ty.Kind.{Ty, ty, Tys, nil, cons, TypeKind, F64, to_list}
use kclvm.Ty.Flags.{
  TypeFlags, contains_flags, is_union, flag_int, flag_float, flag_bool, flag_str, flag_list,
  flag_dict, flag_schema,
}
use kclvm.Ty.Build.{any_ty, bool_ty, int_ty, float_ty, str_ty, list, dict, union}
use kclvm.Ty.Unify.{sup}

module _ (show_f64 : F64 → Text) where
  unfoldable mutual
    pub infer_to_variable_type : Ty → Option Ty
    infer_to_variable_type (ty k a f) = infer_kind k (ty k a f)

    -- The match on the kind; the type itself goes along.
    pub infer_kind : TypeKind → Ty → Option Ty
    infer_kind TypeKind.none t = some any_ty
    infer_kind (TypeKind.bool_lit v) t = some bool_ty
    infer_kind (TypeKind.int_lit v) t = some int_ty
    infer_kind (TypeKind.float_lit v) t = some float_ty
    infer_kind (TypeKind.str_lit v) t = some str_ty
    infer_kind (TypeKind.list item) t = do i ← infer_to_variable_type item; some (list i)
    infer_kind (TypeKind.dict key val) t = do
      k ← infer_to_variable_type key
      v ← infer_to_variable_type val
      some (dict k v)
    infer_kind (TypeKind.union types) t = do ts ← infer_members types; sup show_f64 ts
    infer_kind k t = some t

    pub infer_members : Tys → Option (List Ty)
    infer_members nil = some []
    infer_members (cons t ts) = do
      u ← infer_to_variable_type t
      us ← infer_members ts
      some (u ∷ us)

  unfoldable pub literal_union_type_to_variable_type : Ty → Option Ty
  literal_union_type_to_variable_type t = if is_union t then infer_to_variable_type t else some t

unfoldable pub has_some_flag : List TypeFlags → Ty → Bool
has_some_flag flags t = any (λ flag. contains_flags t flag) flags

unfoldable pub is_kind_type_or_kind_union_type : Ty → List TypeFlags → Bool
is_kind_type_or_kind_union_type (ty (TypeKind.union types) a f) flags =
    all (has_some_flag flags) (to_list types)
is_kind_type_or_kind_union_type t flags = has_some_flag flags t

unfoldable pub is_number_type_or_number_union_type : Ty → Bool
is_number_type_or_number_union_type t =
    is_kind_type_or_kind_union_type t (flag_int ∷ flag_float ∷ flag_bool ∷ [])

unfoldable pub is_config_type_or_config_union_type : Ty → Bool
is_config_type_or_config_union_type t =
    is_kind_type_or_kind_union_type t (flag_dict ∷ flag_schema ∷ [])

unfoldable pub is_str_type_or_str_union_type : Ty → Bool
is_str_type_or_str_union_type t = is_kind_type_or_kind_union_type t (flag_str ∷ [])

unfoldable pub is_primitive_type_or_primitive_union_type : Ty → Bool
is_primitive_type_or_primitive_union_type t =
    is_kind_type_or_kind_union_type t (flag_int ∷ flag_float ∷ flag_bool ∷ flag_str ∷ [])

unfoldable pub is_mul_val_type_or_mul_val_union_type : Ty → Bool
is_mul_val_type_or_mul_val_union_type t =
    is_kind_type_or_kind_union_type t
      (flag_int ∷ flag_float ∷ flag_bool ∷ flag_str ∷ flag_list ∷ [])

-- The parts of a type, each walked by `walk`.
unfoldable pub walk_members : (Ty → Option Ty) → Tys → Option (List Ty)
walk_members walk nil = some []
walk_members walk (cons t ts) = do u ← walk t; us ← walk_members walk ts; some (u ∷ us)

unfoldable pub walk_parts : (Ty → Option Ty) → Ty → Option Ty
walk_parts walk (ty (TypeKind.list item) a f) = do i ← walk item; some (list i)
walk_parts walk (ty (TypeKind.dict key val) a f) = do k ← walk key; v ← walk val; some (dict k v)
walk_parts walk (ty (TypeKind.union types) a f) = do ts ← walk_members walk types; some (union ts)
walk_parts walk t = some t

-- `walk_type`: the function is applied at a type before its parts are walked. What it returns is
-- walked in turn, so the recursion is on fuel; `none` is that the fuel ran out.
unfoldable pub walk_type : ℕ → (Ty → Ty) → Ty → Option Ty
walk_type zero walk_fn t = none
walk_type (suc n) walk_fn t = walk_parts (walk_type n walk_fn) (walk_fn t)
