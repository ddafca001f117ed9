-- ===== src/Handler/Kind.antt =====
-- kclvm/error/src/error.rs and diagnostic.rs: the kinds of errors and warnings.
use kclvm.Prelude.{ℕ, Bool, true, false, ◌==◌, ◌≡◌, arith}

pub data ErrorKind : Type 0 where
  invalid_syntax tab_error indentation cannot_find_module : ErrorKind
  recursive_load float_overflow float_underflow int_overflow : ErrorKind
  invalid_docstring deprecated un_known_decorator invalid_decorator_target : ErrorKind
  invalid_format_spec schema_check_failure index_signature_error type_error : ErrorKind
  name_error value_error key_error attribute_error : ErrorKind
  assertion_error immutable_error multi_inherit_error cycle_inherit_error : ErrorKind
  illegal_inherit_error illegal_attribute_error illegal_parameter_error recursion_error : ErrorKind
  plan_error cannot_add_members compile_error evaluation_error : ErrorKind
  unique_key_error : ErrorKind

pub data WarningKind : Type 0 where
  compiler_warning unused_import_warning reimport_warning import_position_warning : WarningKind

pub data DiagnosticId : Type 0 where
  error_id : ErrorKind → DiagnosticId
  warning_id : WarningKind → DiagnosticId

-- The place of a kind in its enumeration, which decides the derived equality.
abbrev error_discriminant : ErrorKind → ℕ
error_discriminant ErrorKind.invalid_syntax = 0
error_discriminant ErrorKind.tab_error = 1
error_discriminant ErrorKind.indentation = 2
error_discriminant ErrorKind.cannot_find_module = 3
error_discriminant ErrorKind.recursive_load = 4
error_discriminant ErrorKind.float_overflow = 5
error_discriminant ErrorKind.float_underflow = 6
error_discriminant ErrorKind.int_overflow = 7
error_discriminant ErrorKind.invalid_docstring = 8
error_discriminant ErrorKind.deprecated = 9
error_discriminant ErrorKind.un_known_decorator = 10
error_discriminant ErrorKind.invalid_decorator_target = 11
error_discriminant ErrorKind.invalid_format_spec = 12
error_discriminant ErrorKind.schema_check_failure = 13
error_discriminant ErrorKind.index_signature_error = 14
error_discriminant ErrorKind.type_error = 15
error_discriminant ErrorKind.name_error = 16
error_discriminant ErrorKind.value_error = 17
error_discriminant ErrorKind.key_error = 18
error_discriminant ErrorKind.attribute_error = 19
error_discriminant ErrorKind.assertion_error = 20
error_discriminant ErrorKind.immutable_error = 21
error_discriminant ErrorKind.multi_inherit_error = 22
error_discriminant ErrorKind.cycle_inherit_error = 23
error_discriminant ErrorKind.illegal_inherit_error = 24
error_discriminant ErrorKind.illegal_attribute_error = 25
error_discriminant ErrorKind.illegal_parameter_error = 26
error_discriminant ErrorKind.recursion_error = 27
error_discriminant ErrorKind.plan_error = 28
error_discriminant ErrorKind.cannot_add_members = 29
error_discriminant ErrorKind.compile_error = 30
error_discriminant ErrorKind.evaluation_error = 31
error_discriminant ErrorKind.unique_key_error = 32

abbrev warning_discriminant : WarningKind → ℕ
warning_discriminant WarningKind.compiler_warning = 0
warning_discriminant WarningKind.unused_import_warning = 1
warning_discriminant WarningKind.reimport_warning = 2
warning_discriminant WarningKind.import_position_warning = 3

unfoldable pub id_eq : DiagnosticId → DiagnosticId → Bool
id_eq (DiagnosticId.error_id a) (DiagnosticId.error_id b) =
    error_discriminant a == error_discriminant b
id_eq (DiagnosticId.warning_id a) (DiagnosticId.warning_id b) =
    warning_discriminant a == warning_discriminant b
id_eq _ _ = false

number_eq_refl : (n : ℕ) → (n == n) ≡ true
number_eq_refl n = ground arith

pub id_eq_refl : (i : DiagnosticId) → id_eq i i ≡ true
unfolding id_eq
id_eq_refl (DiagnosticId.error_id k) = number_eq_refl (error_discriminant k)
id_eq_refl (DiagnosticId.warning_id k) = number_eq_refl (warning_discriminant k)
