-- ===== src/Resolver/Calculation/Laws.antt =====
-- What the tables of kclvm/sema/src/resolver/calculation.rs say of numbers, errors and symmetry.
use kclvm.Prelude.{
  Bool, true, false, ◌||◌, ◌&&◌, ◌==◌, ◌%◌, ◌^◌, ◌+◌, ◌≤◌, zero, suc, length, codes, ◌≡◌, ◌⊎◌, inl,
  inr, refl, [], ◌∷◌, Option, some, none, Text, ◌>>=◌, if◌then◌else◌, arith, Bool-cases,
  >>=-eq-some,
}
use kclvm.Handler.{Handler, Diagnostic, Level, add_type_error, has_diagnostic, new_with_code}
use kclvm.Handler.Kind.{ErrorKind, DiagnosticId}
use kclvm.Handler.Grows.{Extends, Extends-refl, add_diagnostic-Extends, length-add_diagnostic}
use kclvm.Handler.Members.{has_diagnostic-add_diagnostic}
use kclvm.Prelude.Int.{pos, negsuc}
use kclvm.Ty.Equal.{contains_ty, ty_eq, int_eq, f64_eq}
use kclvm.Ty.WellFormed.{IsWellFormed}
use kclvm.Resolver.Ops.{BinOp, CmpOp, bin_symbol, cmp_symbol}
use kclvm.Resolver.Calculation.{
  Outcome, bin_table, number_binary, report_zero, zero_lit_types, binary, comparable, compare,
  unsupported_msg, report_unsupported, is_membership,
}
use kclvm.Ty.Kind.{Ty, ty, TypeKind, F64, Position}
use kclvm.Ty.Build.{any_ty, bool_ty, int_ty, float_ty}
use kclvm.Ty.Context.{literal_union_type_to_variable_type}
use kclvm.Ty.Flags.{is_union, is_number, is_any, is_float}
use kclvm.Ty.Unify.{has_any_type}

-- The arithmetic operators.
abbrev pub is_arithmetic : BinOp → Bool
is_arithmetic BinOp.add = true
is_arithmetic BinOp.sub = true
is_arithmetic BinOp.mul = true
is_arithmetic BinOp.div = true
is_arithmetic BinOp.mod_op = true
is_arithmetic BinOp.pow = true
is_arithmetic BinOp.floor_div = true
is_arithmetic _ = false

abbrev pub is_division : BinOp → Bool
is_division BinOp.div = true
is_division BinOp.floor_div = true
is_division BinOp.mod_op = true
is_division _ = false

abbrev pub is_mod : BinOp → Bool
is_mod BinOp.mod_op = true
is_mod _ = false

-- The type of a computation's result.
abbrev pub type_of : Option (Ty × Handler) → Option Ty
type_of none = none
type_of (some r) = some r.0

-- The literals of numbers that are zero, of either sign for a float; `False` is one.
unfoldable pub is_zero_number : Ty → Bool
is_zero_number (ty (TypeKind.int_lit (pos zero)) false f) = true
is_zero_number (ty (TypeKind.float_lit v) false f) = v % 2 ^ 63 == 0
is_zero_number (ty (TypeKind.bool_lit false) false f) = true
is_zero_number _ = false

-- `report_zero` reports the zeros among the numbers.
contains-zero :
    (t : Ty) → IsWellFormed t → is_number t ≡ true → contains_ty zero_lit_types t ≡ is_zero_number t
unfolding contains_ty is_zero_number is_number ty_eq int_eq f64_eq
contains-zero (ty (TypeKind.int_lit (pos zero)) false f) w n = rw w.0 refl
contains-zero (ty (TypeKind.int_lit (pos (suc m))) false f) w n = ground arith
contains-zero (ty (TypeKind.int_lit (pos m)) true f) w n = ground arith
contains-zero (ty (TypeKind.int_lit (negsuc m)) a f) w n = ground arith
contains-zero (ty (TypeKind.float_lit v) false f) w n = rw w.0 (ground arith)
contains-zero (ty (TypeKind.float_lit v) true f) w n = ground arith
contains-zero (ty (TypeKind.bool_lit false) false f) w n = rw w.0 refl
contains-zero (ty (TypeKind.bool_lit false) true f) w n = ground arith
contains-zero (ty (TypeKind.bool_lit true) a f) w n = ground arith
contains-zero (ty k a f) w n = refl

-- The error of a division by zero.
abbrev pub zero_error : Position → Diagnostic
zero_error p =
    new_with_code Level.error (codes "integer division or modulo by zero") none p
      (some (DiagnosticId.error_id ErrorKind.type_error))

module _ (show_f64 : F64 → Text) where
  numbers_table :
      (op : BinOp) (t1 t2 : Ty) (p : Position) (h : Handler)
      → is_arithmetic op ≡ true
      → is_number t1 ≡ true
      → is_number t2 ≡ true
      → bin_table show_f64 op t1 t2 p h
        ≡ some (
          true,
          if is_mod op then int_ty else number_binary t1 t2,
          if is_division op then report_zero t2 p h else h,
        )
  unfolding bin_table
  numbers_table BinOp.add t1 t2 p h a n m = ground arith
  numbers_table BinOp.sub t1 t2 p h a n m = ground arith
  numbers_table BinOp.mul t1 t2 p h a n m = ground arith
  numbers_table BinOp.div t1 t2 p h a n m = ground arith
  numbers_table BinOp.mod_op t1 t2 p h a n m = ground arith
  numbers_table BinOp.pow t1 t2 p h a n m = ground arith
  numbers_table BinOp.floor_div t1 t2 p h a n m = ground arith
  numbers_table _ t1 t2 p h a n m = absurd (ground arith)

  no_any : (l r : Ty) → is_any l ≡ false → is_any r ≡ false → has_any_type (l ∷ r ∷ []) ≡ false
  unfolding has_any_type
  no_any l r x y = ground arith

  -- The handler after a division: the error at most, if the divisor is zero, and no change else.
  Divides : Bool → Position → Handler → Handler → Type 0
  Divides zero_divisor p h j =
      Extends h j
      × (length j ≤ length h + 1)
      × (zero_divisor ≡ true → has_diagnostic j (zero_error p) ≡ true)
      × (zero_divisor ≡ false → j ≡ h)

  report_zero-Divides :
      (t : Ty) (p : Position) (h : Handler)
      → IsWellFormed t
      → is_number t ≡ true
      → (d : Bool) → Divides (d && is_zero_number t) p h (if d then report_zero t p h else h)
  unfolding Divides report_zero add_type_error
  report_zero-Divides t p h w n false = (Extends-refl h, omega arith, λ e. cc, λ e. refl)
  report_zero-Divides t p h w n true =
      rw (contains-zero t w n) (elim (Bool-cases (is_zero_number t)) [
        | inl z ↦ rw z (
          add_diagnostic-Extends h (zero_error p),
          length-add_diagnostic h (zero_error p),
          λ e. has_diagnostic-add_diagnostic h (zero_error p),
          λ e. cc,
        )
        | inr z ↦ rw z (Extends-refl h, omega arith, λ e. cc, λ e. refl)
      ])

  -- Each arithmetic operator takes two numbers that are no unions and no `any`, the right one well
  -- formed: the type is `int` for `%`, and else `float` if an operand is one and `int` if none is,
  -- for `/` too. If `/`, `//` or `%` has a zero `int` or `float` literal or `False` on the right, and
  -- no alias of one, the handler has the error of a division by zero and at most that one more, at
  -- its end; else it stays as it is.
  pub binary-numbers :
      (op : BinOp) (left right : Ty) (p : Position) (h : Handler)
      → is_arithmetic op ≡ true
      → is_union left ≡ false
      → is_union right ≡ false
      → is_any left ≡ false
      → is_any right ≡ false
      → is_number left ≡ true
      → is_number right ≡ true
      → IsWellFormed right
      → (j : Handler) × (binary show_f64 left right op p h
          ≡ some (
            if is_mod op
                then int_ty
                else if is_float left || is_float right
                then float_ty
                else int_ty,
            j,
          ))
        × Extends h j
        × (length j ≤ length h + 1)
        × (is_division op && is_zero_number right ≡ true → has_diagnostic j (zero_error p) ≡ true)
        × (is_division op && is_zero_number right ≡ false → j ≡ h)
  unfolding binary literal_union_type_to_variable_type number_binary report_unsupported Divides
  binary-numbers op left right p h a u v x y n m w =
      let d = report_zero-Divides right p h w m (is_division op) in
      (
        if is_division op then report_zero right p h else h,
        rw (u, v, no_any left right x y, numbers_table op left right p h a n m) refl,
        d.0,
        d.1,
        d.2,
        d.3,
      )

  comparable_comm :
      (t1 t2 : Ty) (op : CmpOp)
      → is_membership op ≡ false
      → comparable t1 t2 op ≡ comparable t2 t1 op
  unfolding comparable
  comparable_comm t1 t2 CmpOp.in_op h = absurd (ground arith)
  comparable_comm t1 t2 CmpOp.not_in h = absurd (ground arith)
  comparable_comm t1 t2 _ h = ground arith

  any_comm : (l r : Ty) → has_any_type (l ∷ r ∷ []) ≡ has_any_type (r ∷ l ∷ [])
  unfolding has_any_type
  any_comm l r = ground arith

  swap :
      (a b : Option Ty) (f : Ty → Ty → Option (Ty × Handler))
      → ((x y : Ty) → type_of (f x y) ≡ type_of (f y x))
      → type_of (a >>= λ x. b >>= λ y. f x y) ≡ type_of (b >>= λ y. a >>= λ x. f y x)
  swap none none f h = refl
  swap none (some y) f h = refl
  swap (some x) none f h = refl
  swap (some x) (some y) f h = h x y

  -- Comparison is symmetric but for `in` and `not in`: the operands in the other order get the
  -- same type, and both orders panic or neither does.
  pub compare_comm :
      (left right : Ty) (op : CmpOp) (p : Position) (h : Handler)
      → is_membership op ≡ false
      → type_of (compare show_f64 left right op p h) ≡ type_of (compare show_f64 right left op p h)
  unfolding compare
  compare_comm left right op p h m =
      swap (literal_union_type_to_variable_type show_f64 left)
        (literal_union_type_to_variable_type show_f64 right)
        (λ t1 t2.
          if has_any_type (t1 ∷ t2 ∷ [])
          then some (any_ty, h)
          else if comparable t1 t2 op
          then some (bool_ty, h)
          else some (any_ty, add_type_error (unsupported_msg show_f64 (cmp_symbol op) t1 t2) p h))
        (λ t1 t2. ground (arith, any_comm t1 t2, comparable_comm t1 t2 op))

  -- The operators that report more than unsupported operands.
  abbrev pub reports_more : BinOp → Bool
  reports_more BinOp.as_op = true
  reports_more op = is_division op

  table_any :
      (op : BinOp) (t1 t2 : Ty) (p : Position) (h : Handler) (o : Outcome)
      → reports_more op ≡ false
      → bin_table show_f64 op t1 t2 p h ≡ some o
      → (o.2 ≡ h) × ((o.0 ≡ true) ⊎ (o.1 ≡ any_ty))
  unfolding bin_table
  table_any BinOp.add t1 t2 p h o m e = ground arith
  table_any BinOp.sub t1 t2 p h o m e = ground arith
  table_any BinOp.mul t1 t2 p h o m e = ground arith
  table_any BinOp.pow t1 t2 p h o m e = ground arith
  table_any BinOp.bit_or t1 t2 p h o m e = ground arith
  table_any BinOp.and_op t1 t2 p h o m e = ground arith
  table_any BinOp.or_op t1 t2 p h o m e = ground arith
  table_any BinOp.div t1 t2 p h o m e = absurd (ground arith)
  table_any BinOp.mod_op t1 t2 p h o m e = absurd (ground arith)
  table_any BinOp.floor_div t1 t2 p h o m e = absurd (ground arith)
  table_any BinOp.as_op t1 t2 p h o m e = absurd (ground arith)
  table_any _ t1 t2 p h o m e = ground arith

  after_table :
      (op : BinOp) (t1 t2 : Ty) (p : Position) (h k : Handler) (v : Ty) (msg : Text)
      → reports_more op ≡ false
      → (bin_table show_f64 op t1 t2 p h >>= λ o. some (report_unsupported msg p o)) ≡ some (v, k)
      → (k ≡ h) ⊎ (v ≡ any_ty)
  unfolding report_unsupported
  after_table op t1 t2 p h k v msg m e =
      let (o, q, d) = >>=-eq-some (bin_table show_f64 op t1 t2 p h) _ e in
      let (s, c) = table_any op t1 t2 p h o m q in ground arith

  -- If `binary` returns and changes the handler, for any operator but `/`, `//`, `%` and `as`, the
  -- type that it returns is `any`.
  pub binary-rejects :
      (op : BinOp) (left right : Ty) (p : Position) (h k : Handler) (v : Ty)
      → reports_more op ≡ false
      → binary show_f64 left right op p h ≡ some (v, k)
      → (k ≡ h) ⊎ (v ≡ any_ty)
  unfolding binary
  binary-rejects op left right p h k v m e =
      let (t1, q1, e1) = >>=-eq-some (literal_union_type_to_variable_type show_f64 left) _ e in
      let (t2, q2, e2) = >>=-eq-some (literal_union_type_to_variable_type show_f64 right) _ e1 in
      decide t1 t2 e2
    where
      decide :
          (t1 t2 : Ty)
          → (if has_any_type (t1 ∷ t2 ∷ [])
              then some (any_ty, h)
              else (bin_table show_f64 op t1 t2 p h >>= λ o.
                  some
                    (report_unsupported (unsupported_msg show_f64 (bin_symbol op) left right) p o)))
            ≡ some (v, k)
          → (k ≡ h) ⊎ (v ≡ any_ty)
      decide t1 t2 d = elim (Bool-cases (has_any_type (t1 ∷ t2 ∷ []))) [
        | inl a ↦ let d' = rw a at d in inl (ground arith)
        | inr a ↦ after_table op t1 t2 p h k v _ m (rw a at d)
      ]
