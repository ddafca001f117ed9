-- ===== src/Ty/Into.antt =====
-- kclvm/sema/src/ty/into.rs: downcasts, where `none` is the `bug!` panic; and the printed names of
-- kclvm/sema/src/ty/mod.rs. How Rust prints an `f64` is the parameter `show_f64`.
use kclvm.Prelude.{
  suc, Bool, true, false, Option, none, some, Text, codes, List, [], ◌∷◌, ◌++◌, show_ℕ, text_eq,
  if◌then◌else◌, ◌||◌,
}
use kclvm.Prelude.Int.{ℤ, pos, negsuc}
use kclvm.Ty.Kind.{
  Ty, ty, Tys, nil, cons, TypeKind, F64, to_list, SchemaType, schema_type, schema_info,
  NumberMultiplierType, OptIndex, no_index, some_index,
}
use kclvm.Ty.Build.{any_ty, str_ty}

unfoldable pub list_item_ty : Ty → Option Ty
list_item_ty (ty (TypeKind.list item) a f) = some item
list_item_ty _ = none

unfoldable pub dict_entry_ty : Ty → Option (Ty × Ty)
dict_entry_ty (ty (TypeKind.dict key val) a f) = some (key, val)
dict_entry_ty _ = none

-- `SchemaType::key_ty` and `SchemaType::val_ty`.
abbrev pub schema_key_ty : SchemaType → Ty
schema_key_ty s = str_ty

abbrev index_val_ty : OptIndex → Ty
index_val_ty no_index = any_ty
index_val_ty (some_index i k v) = v

abbrev pub schema_val_ty : SchemaType → Ty
schema_val_ty (schema_type i b p m a f x) = index_val_ty x

unfoldable pub config_key_ty : Ty → Option Ty
config_key_ty (ty (TypeKind.dict key val) a f) = some key
config_key_ty (ty (TypeKind.schema s) a f) = some (schema_key_ty s)
config_key_ty _ = none

unfoldable pub config_val_ty : Ty → Option Ty
config_val_ty (ty (TypeKind.dict key val) a f) = some val
config_val_ty (ty (TypeKind.schema s) a f) = some (schema_val_ty s)
config_val_ty _ = none

unfoldable pub union_types : Ty → Option (List Ty)
union_types (ty (TypeKind.union types) a f) = some (to_list types)
union_types _ = none

unfoldable pub into_schema_type : Ty → Option SchemaType
into_schema_type (ty (TypeKind.schema s) a f) = some s
into_schema_type _ = none

unfoldable pub into_number_multiplier : Ty → Option NumberMultiplierType
into_number_multiplier (ty (TypeKind.number_multiplier m) a f) = some m
into_number_multiplier _ = none

-- `i64::to_string` and `bool::to_string`.
abbrev pub show_int : ℤ → Text
show_int (pos n) = show_ℕ n
show_int (negsuc n) = codes "-" ++ show_ℕ (suc n)

abbrev pub show_bool : Bool → Text
show_bool true = codes "true"
show_bool false = codes "false"

-- `format!("{}({})", name, lit)`.
abbrev pub lit_str : Text → Text → Text
lit_str name lit = name ++ (codes "(" ++ lit ++ codes ")")

abbrev multiplier_str : NumberMultiplierType → Text
multiplier_str m =
    if m.is_literal
    then lit_str (codes "number_multiplier") (show_int m.raw_value ++ m.binary_suffix)
    else codes "number_multiplier"

-- `MAIN_PKG`.
abbrev pub main_pkg : Text
main_pkg = codes "__main__"

abbrev is_empty : Text → Bool
is_empty [] = true
is_empty (c ∷ s) = false

unfoldable pub ty_str_with_pkgpath : SchemaType → Text
ty_str_with_pkgpath s =
    let i = schema_info s in
    if is_empty i.pkgpath || text_eq i.pkgpath main_pkg
    then i.name
    else codes "@" ++ i.pkgpath ++ codes "." ++ i.name

module _ (show_f64 : F64 → Text) where
  unfoldable mutual
    pub ty_str : Ty → Text
    ty_str (ty k a f) = kind_str k

    pub kind_str : TypeKind → Text
    kind_str TypeKind.none = codes "NoneType"
    kind_str TypeKind.any = codes "any"
    kind_str TypeKind.bool = codes "bool"
    kind_str (TypeKind.bool_lit v) = lit_str (codes "bool") (show_bool v)
    kind_str TypeKind.int = codes "int"
    kind_str (TypeKind.int_lit v) = lit_str (codes "int") (show_int v)
    kind_str TypeKind.float = codes "float"
    kind_str (TypeKind.float_lit v) = lit_str (codes "float") (show_f64 v)
    kind_str TypeKind.str = codes "str"
    kind_str (TypeKind.str_lit v) = lit_str (codes "str") v
    kind_str (TypeKind.list item) = codes "[" ++ ty_str item ++ codes "]"
    kind_str (TypeKind.dict key val) =
        codes "{" ++ ty_str key ++ codes ":" ++ ty_str val ++ codes "}"
    kind_str (TypeKind.union types) = union_str types
    kind_str (TypeKind.schema s) = (schema_info s).name
    kind_str (TypeKind.number_multiplier m) = multiplier_str m
    kind_str (TypeKind.function g) = codes "function"
    kind_str TypeKind.void = codes "void"
    kind_str (TypeKind.module_of m) = codes "module '" ++ m.pkgpath ++ codes "'"
    kind_str (TypeKind.named name) = name

    -- `join("|")`.
    pub union_str : Tys → Text
    union_str nil = []
    union_str (cons t nil) = ty_str t
    union_str (cons t (cons u ts)) = ty_str t ++ codes "|" ++ union_str (cons u ts)
