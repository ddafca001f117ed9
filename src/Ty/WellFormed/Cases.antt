-- ===== src/Ty/WellFormed/Cases.antt =====
-- In a well-formed type a flag that is set tells the kind, so no downcast behind a test panics.
use kclvm.Prelude.{◌+◌, ◌<◌, true, some, ◌≡◌, refl, arith}
use kclvm.Ty.Kind.{Ty, ty, Tys, TypeKind, to_list, SchemaType, NumberMultiplierType}
use kclvm.Ty.Flags.{is_union, is_list, is_dict, is_schema, is_number_multiplier}
use kclvm.Ty.Into.{
  union_types, list_item_ty, dict_entry_ty, into_schema_type, into_number_multiplier,
}
use kclvm.Ty.Unify.Size.{size, size_list}
use kclvm.Ty.WellFormed.{IsWellFormed, TysAreWellFormed}

pub union_types-Returns :
    (t : Ty)
    → IsWellFormed t
    → is_union t ≡ true
    → (ts : Tys) × (union_types t ≡ some (to_list ts))
      × TysAreWellFormed ts
      × (size_list ts < size t)
unfolding is_union union_types size
union_types-Returns (ty (TypeKind.union ts) a f) w h = (ts, refl, w.1, omega arith)
union_types-Returns (ty _ a f) w h = absurd (ground arith)

pub list_item_ty-Returns :
    (t : Ty)
    → IsWellFormed t
    → is_list t ≡ true
    → (item : Ty) × (list_item_ty t ≡ some item) × IsWellFormed item × (size item < size t)
unfolding is_list list_item_ty size
list_item_ty-Returns (ty (TypeKind.list item) a f) w h = (item, refl, w.1, omega arith)
list_item_ty-Returns (ty _ a f) w h = absurd (ground arith)

pub dict_entry_ty-Returns :
    (t : Ty)
    → IsWellFormed t
    → is_dict t ≡ true
    → (key val : Ty) × (dict_entry_ty t ≡ some (key, val))
      × IsWellFormed key
      × IsWellFormed val
      × (size key + size val < size t)
unfolding is_dict dict_entry_ty size
dict_entry_ty-Returns (ty (TypeKind.dict k v) a f) w h = (k, v, refl, w.1.0, w.1.1, omega arith)
dict_entry_ty-Returns (ty _ a f) w h = absurd (ground arith)

pub into_schema_type-Returns :
    (t : Ty)
    → IsWellFormed t
    → is_schema t ≡ true
    → (s : SchemaType) × (into_schema_type t ≡ some s)
unfolding is_schema into_schema_type
into_schema_type-Returns (ty (TypeKind.schema s) a f) w h = (s, refl)
into_schema_type-Returns (ty _ a f) w h = absurd (ground arith)

pub into_number_multiplier-Returns :
    (t : Ty)
    → IsWellFormed t
    → is_number_multiplier t ≡ true
    → (m : NumberMultiplierType) × (into_number_multiplier t ≡ some m)
unfolding is_number_multiplier into_number_multiplier
into_number_multiplier-Returns (ty (TypeKind.number_multiplier m) a f) w h = (m, refl)
into_number_multiplier-Returns (ty _ a f) w h = absurd (ground arith)
