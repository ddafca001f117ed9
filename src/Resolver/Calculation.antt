-- ===== src/Resolver/Calculation.antt =====
-- kclvm/sema/src/resolver/calculation.rs: the types of unary, binary and comparison expressions.
-- The resolver's state is its handler; `none` is a panic of a downcast.
pub mod Total
pub mod Laws
pub mod Comparable
use kclvm.Prelude.{
  Bool, true, false, not, ◌&&◌, ◌||◌, List, [], ◌∷◌, ◌++◌, Option, some, Text, codes, ◌>>=◌,
  if◌then◌else◌,
}
use kclvm.Prelude.Int.{pos}
use kclvm.Handler.{Handler, add_type_error}
use kclvm.Resolver.Ops.{BinOp, UnaryOp, CmpOp, bin_symbol, unary_symbol, cmp_symbol}
use kclvm.Ty.Kind.{Ty, F64, Position}
use kclvm.Ty.Build.{
  any_ty, bool_ty, int_ty, float_ty, str_ty, list, dict, int_lit, float_lit, bool_lit,
}
use kclvm.Ty.Context.{
  infer_to_variable_type, literal_union_type_to_variable_type,
  is_mul_val_type_or_mul_val_union_type, is_number_type_or_number_union_type,
  is_primitive_type_or_primitive_union_type,
}
use kclvm.Ty.Equal.{contains_ty}
use kclvm.Ty.Flags.{
  is_number, is_float, is_str, is_list, is_int, is_bool, is_none, is_dict, is_schema,
  is_dict_or_schema, is_iterable,
}
use kclvm.Ty.Into.{list_item_ty, dict_entry_ty, ty_str}
use kclvm.Ty.Unify.{has_any_type, is_upper_bound, sup}

abbrev pub zero_lit_types : List Ty
zero_lit_types = int_lit (pos 0) ∷ float_lit 0 ∷ bool_lit false ∷ []

abbrev div_or_mod_zero_msg : Text
div_or_mod_zero_msg = codes "integer division or modulo by zero"

unfoldable pub number_binary : Ty → Ty → Ty
number_binary left right = if is_float left || is_float right then float_ty else int_ty

-- Whether the operands are supported, the type of the result, and the handler.
abbrev pub Outcome : Type 0
Outcome = Bool × Ty × Handler

unfoldable pub report_zero : Ty → Position → Handler → Handler
report_zero t p h =
    if contains_ty zero_lit_types t then add_type_error div_or_mod_zero_msg p h else h

abbrev pub unary_supported : UnaryOp → Ty → Bool
unary_supported UnaryOp.u_add t = is_number t
unary_supported UnaryOp.u_sub t = is_number t
unary_supported UnaryOp.invert t = is_int t || is_bool t
unary_supported UnaryOp.not_op t = true

abbrev pub is_membership : CmpOp → Bool
is_membership CmpOp.in_op = true
is_membership CmpOp.not_in = true
is_membership _ = false

abbrev is_equality : CmpOp → Bool
is_equality CmpOp.eq = true
is_equality CmpOp.not_eq = true
is_equality _ = false

-- The operators that take `None` on either side.
abbrev is_none_test : CmpOp → Bool
is_none_test CmpOp.eq = true
is_none_test CmpOp.not_eq = true
is_none_test CmpOp.is = true
is_none_test CmpOp.is_not = true
is_none_test CmpOp.not_cmp = true
is_none_test _ = false

-- The conditions of `compare`, one after another.
unfoldable pub comparable : Ty → Ty → CmpOp → Bool
comparable t1 t2 op =
    if is_number_type_or_number_union_type t1
      && is_number_type_or_number_union_type t2
      && not (is_membership op)
    then true
    else if is_primitive_type_or_primitive_union_type t1
        && is_primitive_type_or_primitive_union_type t2
        && is_equality op
    then true
    else if is_list t1 && is_list t2
    then true
    else if is_dict_or_schema t1 && is_dict_or_schema t2
    then true
    else if is_membership op && is_iterable t2
    then true
    else (is_none t1 || is_none t2) && is_none_test op

-- The end of `binary`: unsupported operands are reported.
unfoldable pub report_unsupported : Text → Position → Outcome → Ty × Handler
report_unsupported msg p o = (o.1, if not o.0 then add_type_error msg p o.2 else o.2)

module _ (show_f64 : F64 → Text) where
  unfoldable pub list_join : Ty → Ty → Option Ty
  list_join t1 t2 = do
    a ← list_item_ty t1
    b ← list_item_ty t2
    item ← sup show_f64 (a ∷ b ∷ [])
    some (list item)

  unfoldable pub dict_join : Ty → Ty → Option Ty
  dict_join t1 t2 = do
    a ← dict_entry_ty t1
    b ← dict_entry_ty t2
    key ← sup show_f64 (a.0 ∷ b.0 ∷ [])
    val ← sup show_f64 (a.1 ∷ b.1 ∷ [])
    some (dict key val)

  unfoldable pub conversion_msg : Ty → Ty → Text
  conversion_msg t1 t2 =
      codes "Conversion of type '"
      ++ ty_str show_f64 t1
      ++ codes "' to type '"
      ++ ty_str show_f64 t2
      ++ codes "' may be a mistake because neither type sufficiently overlaps with the other"

  -- The table of `binary`, for operands of which neither is `any`.
  unfoldable pub bin_table : BinOp → Ty → Ty → Position → Handler → Option Outcome
  bin_table BinOp.add t1 t2 p h =
      if is_number t1 && is_number t2
      then some (true, number_binary t1 t2, h)
      else if is_str t1 && is_str t2
      then some (true, str_ty, h)
      else if is_list t1 && is_list t2
      then (do joined ← list_join t1 t2; some (true, joined, h))
      else some (false, any_ty, h)
  bin_table BinOp.sub t1 t2 p h =
      if is_number t1 && is_number t2
      then some (true, number_binary t1 t2, h)
      else some (false, any_ty, h)
  bin_table BinOp.pow t1 t2 p h =
      if is_number t1 && is_number t2
      then some (true, number_binary t1 t2, h)
      else some (false, any_ty, h)
  bin_table BinOp.mul t1 t2 p h =
      if is_number t1 && is_number t2
      then some (true, number_binary t1 t2, h)
      else if is_int t1 && is_mul_val_type_or_mul_val_union_type t2
      then some (true, t2, h)
      else if is_mul_val_type_or_mul_val_union_type t1 && is_int t2
      then some (true, t1, h)
      else some (false, any_ty, h)
  bin_table BinOp.div t1 t2 p h =
      if is_number t1 && is_number t2
      then some (true, number_binary t1 t2, report_zero t2 p h)
      else some (false, any_ty, h)
  bin_table BinOp.floor_div t1 t2 p h =
      if is_number t1 && is_number t2
      then some (true, number_binary t1 t2, report_zero t2 p h)
      else some (false, any_ty, h)
  bin_table BinOp.mod_op t1 t2 p h =
      if is_number t1 && is_number t2
      then some (true, int_ty, report_zero t2 p h)
      else some (false, any_ty, h)
  bin_table BinOp.bit_or t1 t2 p h =
      if is_int t1 && is_int t2
      then some (true, int_ty, h)
      else if is_none t1
      then some (true, t2, h)
      else if is_none t2
      then some (true, t1, h)
      else if is_list t1 && is_list t2
      then (do joined ← list_join t1 t2; some (true, joined, h))
      else if is_dict t1 && is_dict t2
      then (do joined ← dict_join t1 t2; some (true, joined, h))
      else if is_schema t1 && (is_schema t2 || is_dict t2)
      then some (true, t1, h)
      else some (false, any_ty, h)
  bin_table BinOp.and_op t1 t2 p h = some (true, bool_ty, h)
  bin_table BinOp.or_op t1 t2 p h = do t ← sup show_f64 (t1 ∷ t2 ∷ []); some (true, t, h)
  bin_table BinOp.as_op t1 t2 p h = do
    var_ty ← infer_to_variable_type show_f64 t1
    above ← is_upper_bound show_f64 var_ty t2
    some (true, t2, if not above then add_type_error (conversion_msg t1 t2) p h else h)
  bin_table op t1 t2 p h =
      if is_int t1 && is_int t2 then some (true, int_ty, h) else some (false, any_ty, h)

  unfoldable pub unsupported_msg : Text → Ty → Ty → Text
  unsupported_msg symbol left right =
      codes "unsupported operand type(s) for "
      ++ symbol
      ++ codes ": '"
      ++ ty_str show_f64 left
      ++ codes "' and '"
      ++ ty_str show_f64 right
      ++ codes "'"

  unfoldable pub binary : Ty → Ty → BinOp → Position → Handler → Option (Ty × Handler)
  binary left right op p h = do
    t1 ← literal_union_type_to_variable_type show_f64 left
    t2 ← literal_union_type_to_variable_type show_f64 right
    let outcome = bin_table op t1 t2 p h
    let msg = unsupported_msg (bin_symbol op) left right
    (if has_any_type (t1 ∷ t2 ∷ [])
        then some (any_ty, h)
        else (outcome >>= λ o. some (report_unsupported msg p o)))

  unfoldable pub unary : Ty → UnaryOp → Position → Handler → Option (Ty × Handler)
  unary t op p h =
      let checked =
        (literal_union_type_to_variable_type show_f64 t >>= λ var_ty.
        if unary_supported op var_ty
        then some (var_ty, h)
        else some (
          any_ty,
          add_type_error
              (codes "bad operand type for unary "
                ++ unary_symbol op
                ++ codes ": '"
                ++ ty_str show_f64 t
                ++ codes "'")
              p h,
        )) in
      if has_any_type (t ∷ []) then some (any_ty, h) else checked

  unfoldable pub compare : Ty → Ty → CmpOp → Position → Handler → Option (Ty × Handler)
  compare left right op p h = do
    t1 ← literal_union_type_to_variable_type show_f64 left
    t2 ← literal_union_type_to_variable_type show_f64 right
    (if has_any_type (t1 ∷ t2 ∷ [])
        then some (any_ty, h)
        else if comparable t1 t2 op
        then some (bool_ty, h)
        else some (any_ty, add_type_error (unsupported_msg (cmp_symbol op) t1 t2) p h))
