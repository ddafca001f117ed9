-- ===== src/Resolver/Check.antt =====
-- kclvm/sema/src/resolver/ty.rs: whether a type may stand where another is expected. The resolver's
-- state is its handler; `none` is a panic of a downcast, or that the fuel ran out, which starts with
-- the two sizes.
pub mod Combine
pub mod Total
pub mod Report
pub mod Fuel
pub mod Union
use kclvm.Prelude.{
  ℕ, zero, suc, ◌+◌, Bool, true, false, not, ◌&&◌, List, [], ◌∷◌, ◌++◌, Option, none, some, Text,
  codes, if◌then◌else◌, ◌>>=◌, and_then,
}
use kclvm.Handler.{Handler, Message, Style, add_type_error, add_error}
use kclvm.Handler.Kind.{ErrorKind}
use kclvm.Ty.Kind.{
  Ty, ty, Tys, nil, cons, TypeKind, F64, SchemaType, schema_type, OptIndex, no_index, some_index,
  Position,
}
use kclvm.Ty.Into.{ty_str}
use kclvm.Ty.Unify.{assignable_to}
use kclvm.Ty.Unify.Size.{size}

-- The result of a check, with the handler.
abbrev pub Checked : Type 0
Checked = Option (Bool × Handler)

-- `&&` and `||` between checks, `Iterator::all` and `Iterator::any` on them.
unfoldable pub and_check : Checked → (Handler → Checked) → Checked
and_check none next = none
and_check (some (true, h)) next = next h
and_check (some (false, h)) next = some (false, h)

unfoldable pub or_check : Checked → (Handler → Checked) → Checked
or_check none next = none
or_check (some (true, h)) next = some (true, h)
or_check (some (false, h)) next = next h

unfoldable pub all_check : (Ty → Handler → Checked) → Tys → Handler → Checked
all_check check nil h = some (true, h)
all_check check (cons t ts) h = and_check (check t h) (all_check check ts)

unfoldable pub any_check : (Ty → Handler → Checked) → Tys → Handler → Checked
any_check check nil h = some (false, h)
any_check check (cons t ts) h = or_check (check t h) (any_check check ts)

module _ (show_f64 : F64 → Text) where
  unfoldable pub index_msg : Ty → Ty → Text
  index_msg expected val =
      codes "expected schema index signature value type "
      ++ ty_str show_f64 expected
      ++ codes ", got "
      ++ ty_str show_f64 val

  unfoldable pub check_index : Ty → Ty → OptIndex → Position → Handler → Checked
  check_index key val no_index p h = some (true, h)
  check_index key val (some_index i index_key index_val) p h = do
    fits ← assignable_to show_f64 val index_val
    let reported = if not fits then add_type_error (index_msg index_val val) p h else h
    let matched =
        and_then (assignable_to show_f64 key index_key) (assignable_to show_f64 val index_val)
    (if i.any_other then (do b ← matched; some (b, reported)) else some (true, reported))

  unfoldable pub dict_assignable_to_schema : Ty → Ty → SchemaType → Position → Handler → Checked
  dict_assignable_to_schema key val (schema_type i b q m a f x) p h = check_index key val x p h

  unfoldable pub check_assignable : Ty → Ty → Handler → Checked
  check_assignable t expected h = do b ← assignable_to show_f64 t expected; some (b, h)

  -- The match of `check_type`; `rec` is `check_type` itself, on smaller types.
  unfoldable pub check_step : (Ty → Ty → Handler → Checked) → Ty → Ty → Position → Handler → Checked
  check_step rec (ty (TypeKind.list t) a f) (ty (TypeKind.list u) b g) p h = rec t u h
  check_step rec (ty (TypeKind.dict t v) a f) (ty (TypeKind.dict u w) b g) p h =
      and_check (rec t u h) (rec v w)
  check_step rec (ty (TypeKind.dict t v) a f) (ty (TypeKind.schema s) b g) p h =
      dict_assignable_to_schema t v s p h
  check_step rec (ty (TypeKind.union ts) a f) r p h = all_check (λ t. rec t r) ts h
  check_step rec l (ty (TypeKind.union ts) b g) p h = any_check (rec l) ts h
  check_step rec l r p h = check_assignable l r h

  unfoldable pub check_type_fuel : ℕ → Ty → Ty → Position → Handler → Checked
  check_type_fuel zero t expected p h = none
  check_type_fuel (suc n) t expected p h =
      check_step (λ l r. check_type_fuel n l r p) t expected p h

  unfoldable pub check_type : Ty → Ty → Position → Handler → Checked
  check_type t expected p h = check_type_fuel (size t + size expected) t expected p h

  unfoldable pub expected_msg : Ty → Ty → Text
  expected_msg expected t =
      codes "expected " ++ ty_str show_f64 expected ++ codes ", got " ++ ty_str show_f64 t

  unfoldable pub variable_msg : Ty → Ty → Text
  variable_msg expected t =
      codes "variable is defined here, its type is "
      ++ ty_str show_f64 expected
      ++ codes ", but got "
      ++ ty_str show_f64 t

  abbrev message_at : Text → Position → Message
  message_at msg p = record { pos = p; style = Style.line_and_column; message = msg; note = none }

  -- The second message stands where the expected type comes from.
  abbrev pub mismatch_messages : Ty → Ty → Position → Option Position → List Message
  mismatch_messages t expected p none = message_at (expected_msg expected t) p ∷ []
  mismatch_messages t expected p (some q) =
      message_at (expected_msg expected t) p ∷ message_at (variable_msg expected t) q ∷ []

  unfoldable pub must_assignable_to :
      Ty → Ty → Position → Option Position → Handler → Option Handler
  must_assignable_to t expected p expected_pos h = do
    checked ← check_type t expected p h
    some (
        if not checked.0
        then add_error ErrorKind.type_error (mismatch_messages t expected p expected_pos) checked.1
        else checked.1)
