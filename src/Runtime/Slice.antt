-- ===== src/Runtime/Slice.antt =====
-- kclvm/runtime/src/value/val_list.rs: slices of lists and strings. A bound is the integer of its value,
-- and `none` where the value is no integer. The two sums of `i64` values that can leave the range of
-- `i64`, `-step` and `cur += step`, wrap around, or panic where the build checks for overflow; the other
-- sums stay in the range, for `i64` bounds and a list of fewer than 2 ^ 63 elements.
use kclvm.Prelude.{
  ℕ, zero, suc, ◌+◌, ◌/◌, ◌^◌, true, false, List, ◌∷◌, [], Option, none, some, Bool, if◌then◌else◌,
  length, get_elem?, ◌>>=◌,
}
use kclvm.Prelude.Int.{ℤ, pos, negsuc, ◌+ℤ◌, ◌-ℤ◌, ltb_ℤ, pos_part, neg_part}
pub mod Steps
pub mod Returns
pub mod Reference
pub mod Reversed

abbrev pub i64_max : ℤ
i64_max = pos 0x7fffffffffffffff

abbrev pub i64_min : ℤ
i64_min = negsuc 0x7fffffffffffffff

abbrev pub is_negative : ℤ → Bool
is_negative a = ltb_ℤ a (pos 0)

-- The bounds and the step; `none` is the panic on a step of zero.
abbrev pub step_of : Option ℤ → Option ℤ
step_of (some (pos zero)) = none
step_of (some step) = some step
step_of none = some (pos 1)

abbrev pub value_or : Option ℤ → ℤ → ℤ
value_or (some a) b = a
value_or none b = b

unfoldable pub slice_unpack : Option ℤ → Option ℤ → Option ℤ → Option (ℤ × ℤ × ℤ)
slice_unpack start stop step = do
  step_val ← step_of step
  let start_val = value_or start (if is_negative step_val then i64_max else pos 0)
  let stop_val = value_or stop (if is_negative step_val then i64_min else i64_max)
  some (start_val, stop_val, step_val)

-- A bound, moved into the list or to one of its ends.
unfoldable pub adjust : ℤ → ℤ → ℤ → ℤ
adjust len bound step =
    if is_negative bound
    then (if is_negative (bound +ℤ len)
        then (if is_negative step then negsuc 0 else pos 0)
        else bound +ℤ len)
    else if ltb_ℤ bound len
    then bound
    else if is_negative step
    then len -ℤ pos 1
    else len

-- An `i64` quotient, which is rounded towards zero.
unfoldable pub quotient : ℤ → ℤ → ℤ
quotient a b =
    let q = (pos_part a + neg_part a) / (pos_part b + neg_part b) in
    if is_negative a
    then (if is_negative b then pos q else pos 0 -ℤ pos q)
    else if is_negative b
    then pos 0 -ℤ pos q
    else pos q

module _ (overflow_checks : Bool) where
  -- What a sum or a negation of `i64` values gives; `none` is the panic on overflow.
  unfoldable pub i64_result : ℤ → Option ℤ
  i64_result a =
      if ltb_ℤ i64_max a
      then (if overflow_checks then none else some (a -ℤ pos (2 ^ 64)))
      else if ltb_ℤ a i64_min
      then (if overflow_checks then none else some (a +ℤ pos (2 ^ 64)))
      else some a

  -- How many elements stand between two bounds.
  unfoldable pub slice_len_of : ℤ → ℤ → ℤ → Option ℤ
  slice_len_of start stop step =
      if is_negative step
      then (if ltb_ℤ stop start
          then (i64_result (pos 0 -ℤ step) >>= λ back.
              some (quotient (start -ℤ stop -ℤ pos 1) back +ℤ pos 1))
          else some (pos 0))
      else if ltb_ℤ start stop
      then some (quotient (stop -ℤ start -ℤ pos 1) step +ℤ pos 1)
      else some (pos 0)

  unfoldable pub slice_adjust_indices : ℤ → ℤ → ℤ → ℤ → Option (ℤ × ℤ × ℤ)
  slice_adjust_indices len start stop step = do
    let start' = adjust len start step
    let stop' = adjust len stop step
    slice_len ← slice_len_of start' stop' step
    some (start', stop', slice_len)

  module _ {ℓ} {A : Type ℓ} where
    -- The element at a place; `none` is the panic of an index out of bounds.
    abbrev pub element : List A → ℤ → Option A
    element values (pos n) = get_elem? values n
    element values (negsuc n) = none

    -- The loop over the elements, with how many are left. The place moves on after the last one, too.
    unfoldable pub slice_from : List A → ℤ → ℕ → ℤ → Option (List A)
    slice_from values step zero cur = some []
    slice_from values step (suc n) cur = do
      x ← element values cur
      next ← i64_result (cur +ℤ step)
      rest ← slice_from values step n next
      some (x ∷ rest)

    unfoldable pub list_slice : List A → Option ℤ → Option ℤ → Option ℤ → Option (List A)
    list_slice values start stop step = do
      unpacked ← slice_unpack start stop step
      adjusted ← slice_adjust_indices (pos (length values)) unpacked.0 unpacked.1 unpacked.2
      slice_from values unpacked.2 (pos_part adjusted.2) adjusted.0
