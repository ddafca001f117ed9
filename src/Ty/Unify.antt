-- ===== src/Ty/Unify.antt =====
-- kclvm/sema/src/ty/unify.rs: subtyping, and the least upper bound of a list of types. `none` is a
-- panic of a downcast, or that the fuel ran out; `subsume` starts with the two sizes as its fuel.
pub mod Size
pub mod Total
pub mod Alias
pub mod Sup
pub mod Antichain
pub mod Flatten
pub mod Literals
pub mod Union
pub mod Reflexive
pub mod Fuel
use kclvm.Prelude.{
  ℕ, zero, suc, ◌+◌, Bool, true, false, not, ◌&&◌, ◌||◌, List, [], ◌∷◌, ◌++◌, Option, none, some,
  Text, text_eq, contains, if◌then◌else◌, ◌==◌, ◌>>=◌, and_then, all_m, any_m, any,
}
use kclvm.Ty.Kind.{
  Ty, ty, Tys, nil, cons, TypeKind, F64, kind_of, SchemaType, schema_type, OptSchema, no_schema,
  some_schema, NumberMultiplierType,
}
use kclvm.Ty.Flags.{
  is_any, is_int, is_float, is_str, is_literal, is_none, is_void, is_list, is_dict, is_schema,
  is_union, is_number_multiplier, is_primitive, is_assignable_type,
}
use kclvm.Ty.Equal.{ty_eq, kind_eq, int_eq, contains_ty}
use kclvm.Ty.Into.{
  list_item_ty, dict_entry_ty, union_types, into_schema_type, into_number_multiplier, ty_str,
  ty_str_with_pkgpath,
}
use kclvm.Ty.Build.{any_ty, union}
use Size.{size}

unfoldable pub equal : Ty → Ty → Bool
equal lhs rhs = kind_eq (kind_of lhs) (kind_of rhs)

unfoldable mutual
  pub is_sub_schema_of : SchemaType → SchemaType → Bool
  is_sub_schema_of (schema_type i base p m a f x) rhs =
      if text_eq (ty_str_with_pkgpath (schema_type i base p m a f x)) (ty_str_with_pkgpath rhs)
      then true
      else base_is_sub_schema_of base rhs

  pub base_is_sub_schema_of : OptSchema → SchemaType → Bool
  base_is_sub_schema_of no_schema rhs = false
  base_is_sub_schema_of (some_schema base) rhs = is_sub_schema_of base rhs

-- Two number multipliers.
unfoldable pub multiplier_subsume : NumberMultiplierType → NumberMultiplierType → Bool
multiplier_subsume l r =
    if l.is_literal && r.is_literal
    then int_eq l.raw_value r.raw_value && text_eq l.binary_suffix r.binary_suffix
    else if l.is_literal && not r.is_literal
    then true
    else l.is_literal || not r.is_literal

-- The branches of `subsume` that take a type apart; `rec` is `subsume` itself, on smaller types.
module _ (rec : Ty → Ty → Bool → Option Bool) where
  unfoldable pub subsume_union_lhs : Ty → Ty → Option Bool
  subsume_union_lhs l r = do types ← union_types l; all_m (λ t. rec t r false) types

  unfoldable pub subsume_union_rhs : Ty → Ty → Option Bool
  subsume_union_rhs l r = do types ← union_types r; any_m (λ t. rec l t false) types

  unfoldable pub subsume_list : Ty → Ty → Bool → Option Bool
  subsume_list l r check_left_any = do
    lhs ← list_item_ty l
    rhs ← list_item_ty r
    rec lhs rhs check_left_any

  unfoldable pub subsume_dict : Ty → Ty → Bool → Option Bool
  subsume_dict l r check_left_any = do
    lhs ← dict_entry_ty l
    rhs ← dict_entry_ty r
    and_then (rec lhs.0 rhs.0 check_left_any) (rec lhs.1 rhs.1 check_left_any)

unfoldable pub subsume_schema : Ty → Ty → Option Bool
subsume_schema l (ty (TypeKind.schema rhs) a f) = do
  lhs ← into_schema_type l
  some (is_sub_schema_of lhs rhs)
subsume_schema l _ = some false

unfoldable pub subsume_multiplier : Ty → Ty → Option Bool
subsume_multiplier l r = do
  lhs ← into_number_multiplier l
  rhs ← into_number_multiplier r
  some (multiplier_subsume lhs rhs)

-- The body of `subsume`.
module _ (literal_subsume : Ty → Ty → Bool) (rec : Ty → Ty → Bool → Option Bool) where
  unfoldable pub subsume_step : Ty → Ty → Bool → Option Bool
  subsume_step l r check_left_any =
      if (check_left_any && is_any l) || (is_any r || is_none l)
      then some true
      else if is_union l
      then subsume_union_lhs rec l r
      else if is_union r
      then subsume_union_rhs rec l r
      else if is_schema l
      then subsume_schema l r
      else if is_int l && is_float r
      then some true
      else if is_number_multiplier l && is_number_multiplier r
      then subsume_multiplier l r
      else if is_primitive l && is_primitive r
      then some (equal l r)
      else if is_literal l
      then some (literal_subsume l r)
      else if is_list l && is_list r
      then subsume_list rec l r check_left_any
      else if is_dict l && is_dict r
      then subsume_dict rec l r check_left_any
      else some (equal l r)

unfoldable mutual
  pub add_type_to_type_set : List Ty → Ty → List Ty
  add_type_to_type_set type_set (ty k a f) = add_kind_to_type_set type_set k (ty k a f)

  -- The match on the kind; the type itself goes along.
  pub add_kind_to_type_set : List Ty → TypeKind → Ty → List Ty
  add_kind_to_type_set type_set (TypeKind.union types) t = add_members type_set types
  add_kind_to_type_set type_set k t =
      if not (is_void t) && not (contains_ty type_set t) then type_set ++ t ∷ [] else type_set

  pub add_members : List Ty → Tys → List Ty
  add_members type_set nil = type_set
  add_members type_set (cons t ts) = add_members (add_type_to_type_set type_set t) ts

unfoldable pub add_types_to_type_set : List Ty → List Ty → List Ty
add_types_to_type_set type_set [] = type_set
add_types_to_type_set type_set (t ∷ ts) = add_types_to_type_set (add_type_to_type_set type_set t) ts

-- What `typeof` returns for the types that are left.
unfoldable pub of_type_set : List Ty → Ty
of_type_set [] = any_ty
of_type_set (t ∷ []) = t
of_type_set (t ∷ u ∷ ts) = union (t ∷ u ∷ ts)

module _ (show_f64 : F64 → Text) where
  -- A literal type below another type.
  unfoldable pub literal_subsume : Ty → Ty → Bool
  literal_subsume l r =
      if is_literal r
      then kind_eq (kind_of l) (kind_of r)
      else if is_primitive r
      then (if is_float r && not (is_str l)
          then true
          else contains (ty_str show_f64 l) (ty_str show_f64 r))
      else false

  unfoldable pub subsume_fuel : ℕ → Ty → Ty → Bool → Option Bool
  subsume_fuel zero l r check_left_any = none
  subsume_fuel (suc n) l r check_left_any =
      subsume_step literal_subsume (subsume_fuel n) l r check_left_any

  unfoldable pub subsume : Ty → Ty → Bool → Option Bool
  subsume l r check_left_any = subsume_fuel (size l + size r) l r check_left_any

  unfoldable pub assignable_to : Ty → Ty → Option Bool
  assignable_to t expected =
      if not (is_assignable_type t) then some false else subsume t expected true

  unfoldable pub is_upper_bound : Ty → Ty → Option Bool
  is_upper_bound lhs rhs = subsume rhs lhs false

  -- The inner loop of step 3 of `typeof`, which does not stop early: whether a type is below one of
  -- the types at the other places.
  unfoldable pub below_one : Ty → List Ty → Option Bool
  below_one t [] = some false
  below_one t (u ∷ us) = do b ← subsume t u false; c ← below_one t us; some (b || c)

  -- The outer loop: `before` are the types at the earlier places. The types below no other are kept.
  unfoldable pub remove_sub_types : List Ty → List Ty → Option (List Ty)
  remove_sub_types before [] = some []
  remove_sub_types before (t ∷ after) = do
    b ← below_one t (before ++ after)
    rest ← remove_sub_types (before ++ t ∷ []) after
    some (if b then rest else t ∷ rest)

  unfoldable pub typeof : List Ty → Bool → Option Ty
  typeof types should_remove_sub_types = do
    let type_set = add_types_to_type_set [] types
    kept ← if should_remove_sub_types then remove_sub_types [] type_set else some type_set
    some (of_type_set kept)

  unfoldable pub sup : List Ty → Option Ty
  sup types = typeof types true

unfoldable pub has_any_type : List Ty → Bool
has_any_type types = any is_any types
