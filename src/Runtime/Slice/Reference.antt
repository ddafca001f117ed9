-- ===== src/Runtime/Slice/Reference.antt =====
-- A slice with the step 1 is a part of the list.
use kclvm.Prelude.{
  ℕ, zero, suc, Bool, ◌+◌, ◌-◌, ◌≤◌, ◌<◌, ◌≡◌, refl, ap, ◌∙◌, List, [], ◌∷◌, Option, none, some,
  arith, ltb, if◌then◌else◌, length, get_elem?, ◌^◌, take, drop,
}
use kclvm.Prelude.Int.{ℤ, pos, negsuc, ◌+ℤ◌, ◌-ℤ◌}
use kclvm.Runtime.Slice.{
  quotient, i64_result, i64_max, value_or, slice_unpack, adjust, slice_len_of, slice_adjust_indices,
  slice_from, list_slice,
}
use kclvm.Runtime.Slice.Steps.{i64_result-fits}

-- The place of a bound: a negative one counts from the end, and what is outside moves to an end.
unfoldable pub place : ℕ → ℤ → ℕ
place len (pos n) = if ltb n len then n else len
place len (negsuc n) = len - suc n

place_le : (len : ℕ) (b : ℤ) → place len b ≤ len
unfolding place
place_le len (pos n) = ground arith
place_le len (negsuc n) = ground arith

adjust-place : (len : ℕ) (b : ℤ) → adjust (pos len) b (pos 1) ≡ pos (place len b)
unfolding adjust place ◌+ℤ◌
adjust-place len (pos n) = ground arith
adjust-place len (negsuc n) = ground arith

slice_len_of-one :
    (c : Bool) (s e : ℕ) → slice_len_of c (pos s) (pos e) (pos 1) ≡ some (pos (e - s))
unfolding slice_len_of quotient ◌-ℤ◌ ◌+ℤ◌
slice_len_of-one c s e = ground arith

-- The bound at the end that is left out is the greatest `i64`.
stop-place :
    (len : ℕ) (stop : Option ℤ)
    → len < 2 ^ 63
    → adjust (pos len) (value_or stop i64_max) (pos 1) ≡ pos (place len (value_or stop (pos len)))
unfolding place
stop-place len none h = adjust-place len i64_max ∙ ap pos (ground (arith, h))
stop-place len (some b) h = adjust-place len b

module _ {ℓ} {A : Type ℓ} where
  drop-element :
      (c : ℕ) (xs : List A)
      → c < length xs
      → (x : A) × (get_elem? xs c ≡ some x) × (drop c xs ≡ x ∷ drop (suc c) xs)
  drop-element c [] h = absurd (omega (arith, h))
  drop-element zero (x ∷ xs) h = (x, refl, refl)
  drop-element (suc c) (x ∷ xs) h = drop-element c xs (omega (arith, h))

module _ {ℓ} {A : Type ℓ} (overflow_checks : Bool) where
  slice_from-part :
      (xs : List A) (n c : ℕ)
      → length xs < 2 ^ 63
      → c + n ≤ length xs
      → slice_from overflow_checks xs (pos 1) n (pos c) ≡ some (take n (drop c xs))
  unfolding slice_from
  slice_from-part xs zero c l h = refl
  slice_from-part xs (suc n) c l h =
      let (x, e, d) = drop-element c xs (omega (arith, h)) in
      let next : pos c +ℤ pos 1 ≡ pos (suc c) = unfold ◌+ℤ◌ in ground arith in
      let fits : i64_result overflow_checks (pos (suc c)) ≡ some (pos (suc c)) =
        i64_result-fits overflow_checks (pos (suc c)) (omega (arith, h, l)) (omega arith) in
      rw (e, next, fits, slice_from-part xs n (suc c) l (omega (arith, h)), d) refl

  -- Without a step, a slice of a list of fewer than 2^63 elements is the part of the list between
  -- its bounds, where a negative bound counts from the end, one outside the list moves to its end,
  -- and a bound that is left out is that end. It is empty if the bounds are in the wrong order.
  pub list_slice-part :
      (xs : List A) (start stop : Option ℤ)
      → length xs < 2 ^ 63
      → (let s = place (length xs) (value_or start (pos 0)) in
          let e = place (length xs) (value_or stop (pos (length xs))) in
          list_slice overflow_checks xs start stop none ≡ some (take (e - s) (drop s xs)))
  unfolding list_slice slice_unpack slice_adjust_indices
  list_slice-part xs start stop h =
      let len = length xs in
      let s = place len (value_or start (pos 0)) in
      let e = place len (value_or stop (pos len)) in
      rw
        (
          adjust-place len (value_or start (pos 0)),
          stop-place len stop h,
          slice_len_of-one overflow_checks s e,
        )
        (slice_from-part xs (e - s) s h (
          omega
            (arith, place_le len (value_or start (pos 0)), place_le len (value_or stop (pos len)))))
