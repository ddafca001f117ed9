-- ===== src/Resolver/Calculation/Comparable.antt =====
-- Which operands the unary and the comparison operators of kclvm/sema/src/resolver/calculation.rs take,
-- as tables of classes of types, and what is reported of others.
use kclvm.Prelude.{
  Bool, true, false, ◌&&◌, ◌||◌, ◌≡◌, refl, subst, [], ◌∷◌, ◌++◌, codes, Option, some, none, Text,
  arith, length, ◌≤◌, ◌+◌,
}
use kclvm.Handler.{Handler, Diagnostic, Level, add_type_error, has_diagnostic, new_with_code}
use kclvm.Handler.Kind.{ErrorKind, DiagnosticId}
use kclvm.Handler.Grows.{Extends, add_diagnostic-Extends, length-add_diagnostic}
use kclvm.Handler.Members.{has_diagnostic-add_diagnostic}
use kclvm.Resolver.Ops.{UnaryOp, CmpOp, cmp_symbol, unary_symbol}
use kclvm.Resolver.Calculation.{compare, comparable, unsupported_msg}
use kclvm.Ty.Kind.{Ty, ty, TypeKind, F64, Position}
use kclvm.Ty.Build.{any_ty, bool_ty}
use kclvm.Ty.Into.{ty_str}
use kclvm.Ty.Context.{
  literal_union_type_to_variable_type, is_number_type_or_number_union_type,
  is_primitive_type_or_primitive_union_type, is_kind_type_or_kind_union_type, has_some_flag,
}
use kclvm.Ty.Flags.{
  is_union, is_any, is_int, is_bool, is_number, is_none, is_list, is_dict_or_schema, is_iterable,
  contains_flags,
}
use kclvm.Ty.Unify.{has_any_type}
use kclvm.Ty.WellFormed.{IsWellFormed}

-- The classes of types that the operators tell apart.
pub data Class : Type 0 where
  whole real text nothing sequence config other : Class

unfoldable pub class_of : Ty → Class
class_of (ty TypeKind.int a f) = Class.whole
class_of (ty (TypeKind.int_lit v) a f) = Class.whole
class_of (ty TypeKind.bool a f) = Class.whole
class_of (ty (TypeKind.bool_lit v) a f) = Class.whole
class_of (ty TypeKind.float a f) = Class.real
class_of (ty (TypeKind.float_lit v) a f) = Class.real
class_of (ty TypeKind.str a f) = Class.text
class_of (ty (TypeKind.str_lit v) a f) = Class.text
class_of (ty TypeKind.none a f) = Class.nothing
class_of (ty (TypeKind.list t) a f) = Class.sequence
class_of (ty (TypeKind.dict t u) a f) = Class.config
class_of (ty (TypeKind.schema s) a f) = Class.config
class_of _ = Class.other

abbrev is_whole : Class → Bool
is_whole Class.whole = true
is_whole _ = false

abbrev is_numeric : Class → Bool
is_numeric Class.whole = true
is_numeric Class.real = true
is_numeric _ = false

abbrev is_text : Class → Bool
is_text Class.text = true
is_text _ = false

abbrev is_nothing : Class → Bool
is_nothing Class.nothing = true
is_nothing _ = false

abbrev is_sequence : Class → Bool
is_sequence Class.sequence = true
is_sequence _ = false

abbrev is_config : Class → Bool
is_config Class.config = true
is_config _ = false

-- Numbers, lists, and dictionaries or schemas are ordered among themselves.
abbrev ordered : Class → Class → Bool
ordered l r =
    (is_numeric l && is_numeric r)
    || (is_sequence l && is_sequence r)
    || (is_config l && is_config r)

abbrev identified : Class → Class → Bool
identified l r = ordered l r || is_nothing l || is_nothing r

abbrev is_scalar : Class → Bool
is_scalar l = is_numeric l || is_text l

-- What each comparison operator takes.
unfoldable pub takes : CmpOp → Class → Class → Bool
takes CmpOp.in_op l r = is_text r || is_sequence r || is_config r
takes CmpOp.not_in l r = is_text r || is_sequence r || is_config r
takes CmpOp.eq l r = identified l r || (is_scalar l && is_scalar r)
takes CmpOp.not_eq l r = identified l r || (is_scalar l && is_scalar r)
takes CmpOp.is l r = identified l r
takes CmpOp.is_not l r = identified l r
takes CmpOp.not_cmp l r = identified l r
takes _ l r = ordered l r

-- The tests of a type's flags, by its class.
abbrev Tests : Ty → Type 0
Tests t =
    (is_number_type_or_number_union_type t ≡ is_numeric (class_of t))
    × (is_primitive_type_or_primitive_union_type t ≡ is_scalar (class_of t))
    × (is_list t ≡ is_sequence (class_of t))
    × (is_dict_or_schema t ≡ is_config (class_of t))
    × (is_iterable t ≡ (is_text (class_of t) || is_sequence (class_of t) || is_config (class_of t)))
    × (is_none t ≡ is_nothing (class_of t))
    × (is_number t ≡ is_numeric (class_of t))
    × ((is_int t || is_bool t) ≡ is_whole (class_of t))

class_of-Tests : (t : Ty) → IsWellFormed t → is_union t ≡ false → is_any t ≡ false → Tests t
unfolding is_union class_of is_number_type_or_number_union_type
    is_primitive_type_or_primitive_union_type is_kind_type_or_kind_union_type has_some_flag is_list
    is_dict_or_schema is_iterable is_none is_number is_int is_bool contains_flags
class_of-Tests (ty (TypeKind.union ts) a f) w u v = absurd (
    let clash : true ≡ false = subst (λ g. is_union (ty (TypeKind.union ts) a g) ≡ false) w.0 u in
    cc)
class_of-Tests (ty k a f) w u v = rw w.0 (refl, refl, refl, refl, refl, refl, refl, refl)

comparable-takes :
    (t1 t2 : Ty) (op : CmpOp)
    → Tests t1
    → Tests t2
    → comparable t1 t2 op ≡ takes op (class_of t1) (class_of t2)
unfolding comparable takes
comparable-takes t1 t2 CmpOp.eq a b = ground (arith, a, b)
comparable-takes t1 t2 CmpOp.not_eq a b = ground (arith, a, b)
comparable-takes t1 t2 CmpOp.lt a b = ground (arith, a, b)
comparable-takes t1 t2 CmpOp.lt_e a b = ground (arith, a, b)
comparable-takes t1 t2 CmpOp.gt a b = ground (arith, a, b)
comparable-takes t1 t2 CmpOp.gt_e a b = ground (arith, a, b)
comparable-takes t1 t2 CmpOp.is a b = ground (arith, a, b)
comparable-takes t1 t2 CmpOp.in_op a b = ground (arith, a, b)
comparable-takes t1 t2 CmpOp.not_in a b = ground (arith, a, b)
comparable-takes t1 t2 CmpOp.not_cmp a b = ground (arith, a, b)
comparable-takes t1 t2 CmpOp.is_not a b = ground (arith, a, b)

unfoldable pub takes_one : UnaryOp → Class → Bool
takes_one UnaryOp.u_add l = is_numeric l
takes_one UnaryOp.u_sub l = is_numeric l
takes_one UnaryOp.invert l = is_whole l
takes_one UnaryOp.not_op l = true

-- The error of operands that are not supported.
abbrev pub type_error : Text → Position → Diagnostic
type_error msg p =
    new_with_code Level.error msg none p (some (DiagnosticId.error_id ErrorKind.type_error))

-- The operands are rejected: the type is `any`, and the handler has the error and at most that one more.
unfoldable pub Rejects : Text → Position → Handler → Option (Ty × Handler) → Type 0
Rejects msg p h o =
    (j : Handler) × (o ≡ some (any_ty, j))
    × Extends h j
    × (length j ≤ length h + 1)
    × (has_diagnostic j (type_error msg p) ≡ true)

add_type_error-Rejects :
    (msg : Text) (p : Position) (h : Handler)
    → Rejects msg p h (some (any_ty, add_type_error msg p h))
unfolding Rejects add_type_error
add_type_error-Rejects msg p h =
    let d = type_error msg p in
    (
      _,
      refl,
      add_diagnostic-Extends h d,
      length-add_diagnostic h d,
      has_diagnostic-add_diagnostic h d,
    )

module _ (show_f64 : F64 → Text) where
  no_any : (l r : Ty) → is_any l ≡ false → is_any r ≡ false → has_any_type (l ∷ r ∷ []) ≡ false
  unfolding has_any_type
  no_any l r x y = ground arith

  -- On well-formed operands that are no unions and no `any`, `compare` returns `bool` and leaves the
  -- handler as it is where a table of the classes of the operands takes them. Two numbers or
  -- booleans, two lists, and two dictionaries or schemas are taken by every operator that is no
  -- membership; `==` and `!=` also take each pair of numbers, booleans and strings; the operators
  -- that are neither an order nor a membership also take `None` on either side; and a membership
  -- takes a string, a list, a dictionary or a schema on the right, with anything on the left. Else
  -- `compare` returns `any`, and the handler has an error that names the operator and the operands,
  -- and at most that one more, at its end.
  pub compare-takes :
      (left right : Ty) (op : CmpOp) (p : Position) (h : Handler)
      → IsWellFormed left
      → IsWellFormed right
      → is_union left ≡ false
      → is_union right ≡ false
      → is_any left ≡ false
      → is_any right ≡ false
      → (takes op (class_of left) (class_of right) ≡ true
          → compare show_f64 left right op p h ≡ some (bool_ty, h))
        × (takes op (class_of left) (class_of right) ≡ false
            → Rejects
                (unsupported_msg show_f64 (cmp_symbol op) left right)
                p
                h
                (compare show_f64 left right op p h))
  unfolding compare literal_union_type_to_variable_type
  compare-takes left right op p h wl wr ul ur al ar =
      let same : comparable left right op ≡ takes op (class_of left) (class_of right) =
        comparable-takes left right op (class_of-Tests left wl ul al)
          (class_of-Tests right wr ur ar) in
      (
        λ e. rw (ul, ur, no_any left right al ar, same, e) refl,
        λ e.
            rw (ul, ur, no_any left right al ar, same, e)
              (add_type_error-Rejects (unsupported_msg show_f64 (cmp_symbol op) left right) p h),
      )

  abbrev pub operand_msg : UnaryOp → Ty → Text
  operand_msg op t =
      codes "bad operand type for unary "
      ++ unary_symbol op
      ++ codes ": '"
      ++ ty_str show_f64 t
      ++ codes "'"
