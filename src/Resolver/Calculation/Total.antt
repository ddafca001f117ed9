-- ===== src/Resolver/Calculation/Total.antt =====
-- The calculation of types returns on well-formed operands, and only adds diagnostics.
use kclvm.Prelude.{
  Bool, true, false, not, ◌||◌, ◌≡◌, refl, [], ◌∷◌, Option, some, Text, ◌>>=◌, if◌then◌else◌, arith,
  Bool-cases, inl, inr,
}
use kclvm.Handler.{Handler, add_type_error}
use kclvm.Handler.Grows.{Extends, Extends-refl, Extends-trans, add_type_error-Extends}
use kclvm.Resolver.Ops.{BinOp, bin_symbol}
use kclvm.Resolver.Calculation.{
  Outcome, bin_table, number_binary, report_zero, list_join, dict_join, binary, zero_lit_types,
  unsupported_msg, conversion_msg, report_unsupported,
}
use kclvm.Ty.Kind.{Ty, F64, Position}
use kclvm.Ty.Build.{any_ty, bool_ty, int_ty, str_ty, list, dict}
use kclvm.Ty.Context.{literal_union_type_to_variable_type}
use kclvm.Ty.Context.Infer.{infer_to_variable_type-IsVariableType}
use kclvm.Ty.Flags.{is_union, is_list, is_dict, is_float}
use kclvm.Ty.Equal.{contains_ty}
use kclvm.Ty.Unify.{sup, has_any_type, is_upper_bound, of_type_set}
use kclvm.Ty.Unify.Sup.{sup_lem}
use kclvm.Ty.Unify.Total.{subsume-Returns}
use kclvm.Ty.WellFormed.{IsWellFormed}
use kclvm.Ty.WellFormed.Cases.{list_item_ty-Returns, dict_entry_ty-Returns}

module _ (show_f64 : F64 → Text) where
  -- A computation that returns a well-formed type.
  abbrev Makes : Option Ty → Type 0
  Makes o = (v : Ty) × (o ≡ some v) × IsWellFormed v

  sup-Makes : (a b : Ty) → IsWellFormed a → IsWellFormed b → Makes (sup show_f64 (a ∷ b ∷ []))
  sup-Makes a b wa wb =
      let (kept, e, _, _, _, w) = sup_lem show_f64 (a ∷ b ∷ []) (wa, (wb, tt)) in
      (of_type_set kept, e, w)

  list_join-Makes :
      (a b : Ty)
      → IsWellFormed a
      → IsWellFormed b
      → is_list a ≡ true
      → is_list b ≡ true
      → Makes (list_join show_f64 a b)
  unfolding list_join
  list_join-Makes a b wa wb h k =
      let (x, e, wx, _) = list_item_ty-Returns a wa h in
      let (y, d, wy, _) = list_item_ty-Returns b wb k in
      let (v, s, w) = sup-Makes x y wx wy in (list v, rw (e, d, s) refl, (refl, w))

  dict_join-Makes :
      (a b : Ty)
      → IsWellFormed a
      → IsWellFormed b
      → is_dict a ≡ true
      → is_dict b ≡ true
      → Makes (dict_join show_f64 a b)
  unfolding dict_join
  dict_join-Makes a b wa wb h k =
      let (x, x', e, wx, wx', _) = dict_entry_ty-Returns a wa h in
      let (y, y', d, wy, wy', _) = dict_entry_ty-Returns b wb k in
      let (u, s, wu) = sup-Makes x y wx wy in
      let (v, t, wv) = sup-Makes x' y' wx' wy' in (dict u v, rw (e, d, s, t) refl, (refl, (wu, wv)))

  -- An outcome with a well-formed type and a handler that extends the one before.
  Sound : Handler → Option Outcome → Type 0
  Sound h o = (r : Outcome) × (o ≡ some r) × IsWellFormed r.1 × Extends h r.2

  sound :
      (h : Handler) (b : Bool) (t : Ty) (k : Handler)
      → IsWellFormed t
      → Extends h k
      → Sound h (some (b, t, k))
  unfolding Sound
  sound h b t k w e = ((b, t, k), refl, w, e)

  number_binary-IsWellFormed : (a b : Ty) → IsWellFormed (number_binary a b)
  unfolding number_binary
  number_binary-IsWellFormed a b = elim (Bool-cases (is_float a || is_float b)) [
    | inl e ↦ rw e (refl, tt)
    | inr e ↦ rw e (refl, tt)
  ]

  report_zero-Extends : (t : Ty) (p : Position) (h : Handler) → Extends h (report_zero t p h)
  unfolding report_zero
  report_zero-Extends t p h = elim (Bool-cases (contains_ty zero_lit_types t)) [
    | inl e ↦ rw e (add_type_error-Extends _ p h)
    | inr e ↦ rw e (Extends-refl h)
  ]

  module _ (t1 t2 : Ty) (w1 : IsWellFormed t1) (w2 : IsWellFormed t2) (p : Position)
      (h : Handler) where
    unsupported : Sound h (some (false, any_ty, h))
    unsupported = sound h false any_ty h (refl, tt) (Extends-refl h)

    plain : (t : Ty) → IsWellFormed t → Sound h (some (true, t, h))
    plain t w = sound h true t h w (Extends-refl h)

    numbers : Sound h (some (true, number_binary t1 t2, h))
    numbers = plain (number_binary t1 t2) (number_binary-IsWellFormed t1 t2)

    lists :
        is_list t1 ≡ true
        → is_list t2 ≡ true
        → Sound h (list_join show_f64 t1 t2 >>= λ j. some (true, j, h))
    lists e d = let (v, q, w) = list_join-Makes t1 t2 w1 w2 e d in rw q (plain v w)

    dicts :
        is_dict t1 ≡ true
        → is_dict t2 ≡ true
        → Sound h (dict_join show_f64 t1 t2 >>= λ j. some (true, j, h))
    dicts e d = let (v, q, w) = dict_join-Makes t1 t2 w1 w2 e d in rw q (plain v w)

    zeros : (t : Ty) → IsWellFormed t → Sound h (some (true, t, report_zero t2 p h))
    zeros t w = sound h true t (report_zero t2 p h) w (report_zero-Extends t2 p h)

    or-Sound : Sound h (bin_table show_f64 BinOp.or_op t1 t2 p h)
    unfolding bin_table
    or-Sound = let (v, q, w) = sup-Makes t1 t2 w1 w2 in rw q (plain v w)

    as-Sound : Sound h (bin_table show_f64 BinOp.as_op t1 t2 p h)
    unfolding bin_table is_upper_bound
    as-Sound =
        let (v, q, wv, _) = infer_to_variable_type-IsVariableType show_f64 t1 w1 in
        let (b, e) = subsume-Returns show_f64 t2 v false w2 wv in
        rw (q, e) (sound h true t2 _ w2 (reported b))
      where
        reported :
            (b : Bool)
            → Extends h (if not b then add_type_error (conversion_msg show_f64 t1 t2) p h else h)
        reported true = Extends-refl h
        reported false = add_type_error-Extends _ p h

    bin_table-Sound : (op : BinOp) → Sound h (bin_table show_f64 op t1 t2 p h)
    unfolding bin_table
    bin_table-Sound BinOp.add = ground (arith, numbers, plain str_ty (refl, tt), lists, unsupported)
    bin_table-Sound BinOp.sub = ground (arith, numbers, unsupported)
    bin_table-Sound BinOp.pow = ground (arith, numbers, unsupported)
    bin_table-Sound BinOp.mul = ground (arith, numbers, plain t2 w2, plain t1 w1, unsupported)
    bin_table-Sound BinOp.div =
        ground (arith, zeros (number_binary t1 t2) (number_binary-IsWellFormed t1 t2), unsupported)
    bin_table-Sound BinOp.floor_div =
        ground (arith, zeros (number_binary t1 t2) (number_binary-IsWellFormed t1 t2), unsupported)
    bin_table-Sound BinOp.mod_op = ground (arith, zeros int_ty (refl, tt), unsupported)
    bin_table-Sound BinOp.bit_or =
        ground (arith, plain int_ty (refl, tt), plain t1 w1, plain t2 w2, lists, dicts, unsupported)
    bin_table-Sound BinOp.and_op = plain bool_ty (refl, tt)
    bin_table-Sound BinOp.or_op = or-Sound
    bin_table-Sound BinOp.as_op = as-Sound
    bin_table-Sound _ = ground (arith, plain int_ty (refl, tt), unsupported)

  pub literal_union-Makes :
      (t : Ty) → IsWellFormed t → Makes (literal_union_type_to_variable_type show_f64 t)
  unfolding literal_union_type_to_variable_type
  literal_union-Makes t w = elim (Bool-cases (is_union t)) [
    | inl e ↦
        let (v, q, wv, _) = infer_to_variable_type-IsVariableType show_f64 t w in rw e (v, q, wv)
    | inr e ↦ rw e (t, refl, w)
  ]

  -- On well-formed operands `binary` returns a well-formed type, and the handler keeps all its
  -- diagnostics and gets new ones at the end only.
  pub binary-Returns :
      (left right : Ty) (op : BinOp) (p : Position) (h : Handler)
      → IsWellFormed left
      → IsWellFormed right
      → (v : Ty) × (k : Handler) × (binary show_f64 left right op p h ≡ some (v, k))
        × IsWellFormed v
        × Extends h k
  unfolding binary Sound report_unsupported
  binary-Returns left right op p h wl wr =
      let (t1, q1, w1) = literal_union-Makes left wl in
      let (t2, q2, w2) = literal_union-Makes right wr in
      let (r, e, w, x) = bin_table-Sound t1 t2 w1 w2 p h op in
      let msg = unsupported_msg show_f64 (bin_symbol op) left right in
      rw (q1, q2, e) (finish t1 t2 r w x msg)
    where
      Result : Option (Ty × Handler) → Type 0
      Result o = (v : Ty) × (k : Handler) × (o ≡ some (v, k)) × IsWellFormed v × Extends h k

      reported :
          (b : Bool) (k : Handler) (msg : Text)
          → Extends h k
          → Extends h (if not b then add_type_error msg p k else k)
      reported true k msg x = x
      reported false k msg x = Extends-trans h k _ x (add_type_error-Extends msg p k)

      finish :
          (t1 t2 : Ty) (r : Outcome)
          → IsWellFormed r.1
          → Extends h r.2
          → (msg : Text)
          → Result (
              if has_any_type (t1 ∷ t2 ∷ [])
              then some (any_ty, h)
              else some (report_unsupported msg p r))
      finish t1 t2 r w x msg = elim (Bool-cases (has_any_type (t1 ∷ t2 ∷ []))) [
        | inl e ↦ rw e (any_ty, h, refl, (refl, tt), Extends-refl h)
        | inr e ↦ rw e (r.1, (report_unsupported msg p r).1, refl, w, reported r.0 r.2 msg x)
      ]
