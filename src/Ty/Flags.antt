-- ===== src/Ty/Flags.antt =====
-- kclvm/sema/src/ty/mod.rs: the bit set `TypeFlags`, and the tests of constructor.rs that read it.
use Prim.Native.Nat.{bit_and, bit_or}
use kclvm.Prelude.{ℕ, Bool, true, false, ◌==◌, ◌||◌, ◌&&◌, not}
use kclvm.Ty.Kind.{Ty, ty, Tys, TypeKind, nil, cons, schema_info}

abbrev pub TypeFlags : Type 0
TypeFlags = ℕ

abbrev pub flag_void : TypeFlags
flag_void = 1

abbrev pub flag_int : TypeFlags
flag_int = 2

abbrev pub flag_float : TypeFlags
flag_float = 4

abbrev pub flag_str : TypeFlags
flag_str = 8

abbrev pub flag_bool : TypeFlags
flag_bool = 16

abbrev pub flag_any : TypeFlags
flag_any = 32

abbrev pub flag_none : TypeFlags
flag_none = 64

abbrev pub flag_list : TypeFlags
flag_list = 128

abbrev pub flag_dict : TypeFlags
flag_dict = 256

abbrev pub flag_schema : TypeFlags
flag_schema = 512

abbrev pub flag_union : TypeFlags
flag_union = 1024

abbrev pub flag_literal : TypeFlags
flag_literal = 2048

abbrev pub flag_number_multiplier : TypeFlags
flag_number_multiplier = 4096

abbrev pub flag_function : TypeFlags
flag_function = 8192

abbrev pub flag_module : TypeFlags
flag_module = 16384

abbrev pub flag_named : TypeFlags
flag_named = 32768

-- `a | b` on two flag sets.
abbrev pub with_flag : TypeFlags → TypeFlags → TypeFlags
with_flag a b = bit_or a b

unfoldable pub contains_flags : Ty → TypeFlags → Bool
contains_flags (ty k a f) flag = bit_and f flag == flag

unfoldable pub is_any : Ty → Bool
unfolding contains_flags
is_any t = contains_flags t flag_any

unfoldable pub is_int : Ty → Bool
unfolding contains_flags
is_int t = contains_flags t flag_int

unfoldable pub is_float : Ty → Bool
unfolding contains_flags
is_float t = contains_flags t flag_float

unfoldable pub is_bool : Ty → Bool
unfolding contains_flags
is_bool t = contains_flags t flag_bool

unfoldable pub is_str : Ty → Bool
unfolding contains_flags
is_str t = contains_flags t flag_str

unfoldable pub is_literal : Ty → Bool
unfolding contains_flags
is_literal t = contains_flags t flag_literal

unfoldable pub is_none : Ty → Bool
unfolding contains_flags
is_none t = contains_flags t flag_none

unfoldable pub is_void : Ty → Bool
unfolding contains_flags
is_void t = contains_flags t flag_void

unfoldable pub is_list : Ty → Bool
unfolding contains_flags
is_list t = contains_flags t flag_list

unfoldable pub is_dict : Ty → Bool
unfolding contains_flags
is_dict t = contains_flags t flag_dict

unfoldable pub is_schema : Ty → Bool
unfolding contains_flags
is_schema t = contains_flags t flag_schema

unfoldable pub is_union : Ty → Bool
unfolding contains_flags
is_union t = contains_flags t flag_union

unfoldable pub is_number_multiplier : Ty → Bool
unfolding contains_flags
is_number_multiplier t = contains_flags t flag_number_multiplier

unfoldable pub is_func : Ty → Bool
unfolding contains_flags
is_func t = contains_flags t flag_function

unfoldable pub is_module : Ty → Bool
unfolding contains_flags
is_module t = contains_flags t flag_module

unfoldable pub is_primitive : Ty → Bool
is_primitive (ty TypeKind.bool a f) = true
is_primitive (ty TypeKind.int a f) = true
is_primitive (ty TypeKind.float a f) = true
is_primitive (ty TypeKind.str a f) = true
is_primitive _ = false

unfoldable pub is_none_or_any : Ty → Bool
unfolding is_none is_any
is_none_or_any t = is_none t || is_any t

unfoldable pub is_number : Ty → Bool
unfolding contains_flags
is_number t = contains_flags t flag_int || contains_flags t flag_float || contains_flags t flag_bool

unfoldable pub is_schema_def : Ty → Bool
is_schema_def (ty (TypeKind.schema s) a f) = not (schema_info s).is_instance
is_schema_def _ = false

unfoldable pub is_dict_or_schema : Ty → Bool
unfolding is_dict is_schema
is_dict_or_schema t = is_dict t || is_schema t

unfoldable pub is_iterable : Ty → Bool
unfolding is_str is_list is_dict is_schema
is_iterable t = is_str t || is_list t || is_dict t || is_schema t

unfoldable pub is_assignable_type : Ty → Bool
is_assignable_type (ty TypeKind.void a f) = false
is_assignable_type (ty (TypeKind.module_of m) a f) = false
is_assignable_type (ty (TypeKind.named n) a f) = false
is_assignable_type _ = true

unfoldable mutual
  pub is_key : Ty → Bool
  is_key (ty k a f) = is_key_kind k

  pub is_key_kind : TypeKind → Bool
  is_key_kind TypeKind.str = true
  is_key_kind (TypeKind.str_lit s) = true
  is_key_kind (TypeKind.union ts) = all_key ts
  is_key_kind _ = false

  pub all_key : Tys → Bool
  all_key nil = true
  all_key (cons t ts) = is_key t && all_key ts

-- A proof that opens this name computes with every test of a flag.
unfoldable pub all_tests : Bool
unfolding is_any is_int is_float is_bool is_str is_literal is_none is_void is_list is_dict is_schema
    is_union is_number_multiplier is_func is_module is_primitive is_number contains_flags
all_tests = true
