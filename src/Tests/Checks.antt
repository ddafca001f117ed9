-- ===== src/Tests/Checks.antt =====
-- Runs of kclvm/sema/src/resolver/ty.rs.
use kclvm.Prelude.{◌≡◌, refl, [], some, none, true, false, codes, Bool, length, ◌≤◌, ◌+◌}
use kclvm.Handler.{Handler, has_diagnostic, add_type_error}
use kclvm.Handler.Grows.{Extends}
use kclvm.Ty.Kind.{
  Ty, TypeKind, nil, cons, SchemaInfo, IndexInfo, OptSchema, Schemas, Attrs, FunctionType,
  function_type, Params, OptTy,
}
use kclvm.Ty.WellFormed.{IsWellFormed, canonical}
use kclvm.Ty.Build.{any_ty, int_ty, str_ty, bool_ty}
use kclvm.Ty.Unify.{assignable_to}
use kclvm.Resolver.Check.{check_type, check_step, check_index, must_assignable_to, index_msg}
use kclvm.Resolver.Check.Combine.{Checks}
use kclvm.Resolver.Check.Total.{check_type-Checks}
use kclvm.Resolver.Check.Report.{must_assignable_to-reports, mismatch}
use kclvm.Resolver.Check.Union.{check_type-reports_matched, indexed, dict_of}
use kclvm.Tests.Data.{show_bits, table, main_pos}

-- A schema with the index signature `[...str]: int`.
abbrev info : SchemaInfo
info = record {
  name = codes "Ports";
  pkgpath = [];
  filename = [];
  doc = [];
  is_instance = false;
  is_mixin = false;
  is_protocol = false;
  is_rule = false;
  decorators = [];
}

abbrev open_index : IndexInfo
open_index = record { key_name = none; any_other = true }

abbrev make : FunctionType
make =
    function_type (record { doc = []; is_variadic = false; kw_only_index = none }) Params.no_params
      OptTy.no_ty any_ty

abbrev ports : Ty
ports =
    indexed info OptSchema.no_schema OptSchema.no_schema Schemas.no_mixins Attrs.no_attrs make
      open_index str_ty int_ty

table-IsWellFormed : IsWellFormed table
table-IsWellFormed = (refl, ((refl, tt), (refl, (refl, ((refl, tt), ((refl, tt), tt))))))

check_type-Checks_example : Checks [] (check_type show_bits table ports main_pos [])
check_type-Checks_example =
    check_type-Checks show_bits table ports main_pos [] table-IsWellFormed (refl, tt)
      ((refl, tt), (refl, tt))

must_assignable_to-reports_example :
    (b : Bool) × (k : Handler) × (j : Handler) × (check_type show_bits table ports main_pos []
      ≡ some (b, k))
    × (must_assignable_to show_bits table ports main_pos none [] ≡ some j)
    × Extends [] j
    × Extends k j
    × (length j ≤ length k + 1)
    × (b ≡ true → j ≡ k)
    × (b ≡ false → has_diagnostic j (mismatch show_bits table ports main_pos none) ≡ true)
must_assignable_to-reports_example =
    must_assignable_to-reports show_bits table ports main_pos none [] table-IsWellFormed (refl, tt)
      ((refl, tt), (refl, tt))

str_fits_str : assignable_to show_bits str_ty str_ty ≡ some true
unfolding assignable_to kclvm.Ty.Unify.subsume kclvm.Ty.Unify.subsume_fuel kclvm.Ty.Unify.Size.size
    kclvm.Ty.Unify.subsume_step kclvm.Ty.Flags.is_any kclvm.Ty.Flags.is_none kclvm.Ty.Flags.is_union
    kclvm.Ty.Flags.is_schema kclvm.Ty.Flags.is_int kclvm.Ty.Flags.is_float
    kclvm.Ty.Flags.is_number_multiplier kclvm.Ty.Flags.is_primitive kclvm.Ty.Unify.equal
    kclvm.Ty.Equal.kind_eq kclvm.Ty.Flags.is_assignable_type
str_fits_str = refl

bool_fits_bool : assignable_to show_bits bool_ty bool_ty ≡ some true
unfolding assignable_to kclvm.Ty.Unify.subsume kclvm.Ty.Unify.subsume_fuel kclvm.Ty.Unify.Size.size
    kclvm.Ty.Unify.subsume_step kclvm.Ty.Flags.is_any kclvm.Ty.Flags.is_none kclvm.Ty.Flags.is_union
    kclvm.Ty.Flags.is_schema kclvm.Ty.Flags.is_int kclvm.Ty.Flags.is_float
    kclvm.Ty.Flags.is_number_multiplier kclvm.Ty.Flags.is_primitive kclvm.Ty.Unify.equal
    kclvm.Ty.Equal.kind_eq kclvm.Ty.Flags.is_assignable_type
bool_fits_bool = refl

bool_fits_no_int : assignable_to show_bits bool_ty int_ty ≡ some false
unfolding assignable_to kclvm.Ty.Unify.subsume kclvm.Ty.Unify.subsume_fuel kclvm.Ty.Unify.Size.size
    kclvm.Ty.Unify.subsume_step kclvm.Ty.Flags.is_any kclvm.Ty.Flags.is_none kclvm.Ty.Flags.is_union
    kclvm.Ty.Flags.is_schema kclvm.Ty.Flags.is_int kclvm.Ty.Flags.is_float
    kclvm.Ty.Flags.is_number_multiplier kclvm.Ty.Flags.is_primitive kclvm.Ty.Unify.equal
    kclvm.Ty.Equal.kind_eq kclvm.Ty.Flags.is_assignable_type
bool_fits_no_int = refl

str_checks : (k : Handler) → check_type show_bits str_ty str_ty main_pos k ≡ some (true, k)
unfolding check_type kclvm.Resolver.Check.check_type_fuel check_step
    kclvm.Resolver.Check.check_assignable kclvm.Ty.Unify.Size.size
str_checks k = rw str_fits_str refl

bool_checks : (k : Handler) → check_type show_bits bool_ty bool_ty main_pos k ≡ some (true, k)
unfolding check_type kclvm.Resolver.Check.check_type_fuel check_step
    kclvm.Resolver.Check.check_assignable kclvm.Ty.Unify.Size.size
bool_checks k = rw bool_fits_bool refl

check_type-reports_matched_example :
    check_type show_bits
      (dict_of str_ty bool_ty)
      (canonical (TypeKind.union (cons ports (cons (dict_of str_ty bool_ty) nil))) false)
      main_pos
      []
    ≡ some (true, add_type_error (index_msg show_bits int_ty bool_ty) main_pos [])
check_type-reports_matched_example =
    check_type-reports_matched show_bits str_ty bool_ty str_ty int_ty true main_pos [] info
      OptSchema.no_schema OptSchema.no_schema Schemas.no_mixins Attrs.no_attrs make open_index refl
      str_fits_str bool_fits_no_int str_checks bool_checks
