-- ===== src/Ty/Build.antt =====
-- kclvm/sema/src/ty/constructor.rs and constants.rs: the ways a type is made.
use kclvm.Prelude.{Bool, true, false, List, [], ◌∷◌, Option, ℕ, Text}
use kclvm.Prelude.Int.{ℤ, pos}
use kclvm.Ty.Kind.{
  Ty, ty, TypeKind, F64, OptTy, SchemaType, function_type, Params, ModuleKind, of_list,
}
use kclvm.Ty.Flags.{
  flag_void, flag_int, flag_float, flag_str, flag_bool, flag_any, flag_none, flag_list, flag_dict,
  flag_schema, flag_union, flag_literal, flag_number_multiplier, flag_function, flag_module,
  flag_named, with_flag,
}

abbrev pub void_ty : Ty
void_ty = ty TypeKind.void false flag_void

abbrev pub int_ty : Ty
int_ty = ty TypeKind.int false flag_int

abbrev pub float_ty : Ty
float_ty = ty TypeKind.float false flag_float

abbrev pub str_ty : Ty
str_ty = ty TypeKind.str false flag_str

abbrev pub bool_ty : Ty
bool_ty = ty TypeKind.bool false flag_bool

abbrev pub any_ty : Ty
any_ty = ty TypeKind.any false flag_any

abbrev pub none_ty : Ty
none_ty = ty TypeKind.none false flag_none

abbrev pub union : List Ty → Ty
union types = ty (TypeKind.union (of_list types)) false flag_union

abbrev pub list : Ty → Ty
list item_ty = ty (TypeKind.list item_ty) false flag_list

abbrev pub dict : Ty → Ty → Ty
dict key_ty val_ty = ty (TypeKind.dict key_ty val_ty) false flag_dict

abbrev pub bool_lit : Bool → Ty
bool_lit val = ty (TypeKind.bool_lit val) false (with_flag flag_bool flag_literal)

abbrev pub int_lit : ℤ → Ty
int_lit num = ty (TypeKind.int_lit num) false (with_flag flag_int flag_literal)

abbrev pub float_lit : F64 → Ty
float_lit num = ty (TypeKind.float_lit num) false (with_flag flag_float flag_literal)

abbrev pub str_lit : Text → Ty
str_lit val = ty (TypeKind.str_lit val) false (with_flag flag_str flag_literal)

abbrev pub named : Text → Ty
named val = ty (TypeKind.named val) false flag_named

abbrev pub number_multiplier : F64 → ℤ → Text → Ty
number_multiplier v raw suffix =
    ty
      (TypeKind.number_multiplier
        (record { value = v; raw_value = raw; binary_suffix = suffix; is_literal = true }))
      false flag_number_multiplier

abbrev pub number_multiplier_non_lit_ty : Ty
number_multiplier_non_lit_ty =
    ty
      (TypeKind.number_multiplier
        (record { value = 0; raw_value = pos 0; binary_suffix = []; is_literal = false }))
      false flag_number_multiplier

abbrev pub function : OptTy → Ty → Params → Text → Bool → Option ℕ → Ty
function self_ty return_ty params docs variadic kw_only =
    ty
      (TypeKind.function (
        function_type (record { doc = docs; is_variadic = variadic; kw_only_index = kw_only })
          params self_ty return_ty))
      false flag_function

abbrev pub module_ty : Text → List Text → ModuleKind → Ty
module_ty path names k =
    ty (TypeKind.module_of (record { pkgpath = path; imported = names; kind = k })) false
      flag_module

abbrev pub schema : SchemaType → Ty
schema schema_ty = ty (TypeKind.schema schema_ty) false flag_schema

abbrev pub iterable : Ty
iterable = union (str_ty ∷ dict any_ty any_ty ∷ list any_ty ∷ [])

abbrev pub number : Ty
number = union (int_ty ∷ float_ty ∷ str_ty ∷ [])
