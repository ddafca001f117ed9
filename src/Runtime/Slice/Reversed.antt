-- ===== src/Runtime/Slice/Reversed.antt =====
-- A slice with the step -1 and no bounds is the list in reverse.
use kclvm.Prelude.{
  ℕ, zero, suc, ◌^◌, ◌<◌, ◌≡◌, refl, ap, sym, ◌∙◌, Bool, List, [], ◌∷◌, ◌++◌, none, some, arith,
  length, get_elem?, take,
}
use mathlib.Core.List.{reverse, reverse-append}
use kclvm.Prelude.Int.{pos, negsuc, ◌+ℤ◌, ◌-ℤ◌}
use kclvm.Runtime.Slice.{
  i64_max, i64_min, i64_result, quotient, slice_unpack, adjust, slice_len_of, slice_adjust_indices,
  slice_from, list_slice,
}
use kclvm.Runtime.Slice.Steps.{i64_result-fits}

adjust-last : (n : ℕ) → n < 2 ^ 63 → adjust (pos (suc n)) i64_max (negsuc 0) ≡ pos n
unfolding adjust ◌+ℤ◌ ◌-ℤ◌
adjust-last n h = ground (arith, h)

adjust-before : (len : ℕ) → len < 2 ^ 63 → adjust (pos len) i64_min (negsuc 0) ≡ negsuc 0
unfolding adjust ◌+ℤ◌ ◌-ℤ◌
adjust-before len h = ground (arith, h)

adjust-empty : adjust (pos 0) i64_max (negsuc 0) ≡ negsuc 0
unfolding adjust ◌+ℤ◌ ◌-ℤ◌
adjust-empty = refl

slice_len_of-all :
    (c : Bool) (n : ℕ) → slice_len_of c (pos n) (negsuc 0) (negsuc 0) ≡ some (pos (suc n))
unfolding slice_len_of i64_result quotient ◌+ℤ◌ ◌-ℤ◌
slice_len_of-all c n = ground arith

module _ {ℓ} {A : Type ℓ} where
  take-last :
      (n : ℕ) (xs : List A)
      → n < length xs
      → (x : A) × (get_elem? xs n ≡ some x) × (take (suc n) xs ≡ take n xs ++ x ∷ [])
  take-last n [] h = absurd (omega (arith, h))
  take-last zero (x ∷ xs) h = (x, refl, refl)
  take-last (suc n) (y ∷ xs) h =
      let (x, e, d) = take-last n xs (omega (arith, h)) in (x, e, ap (λ (t : List A). y ∷ t) d)

  take-all : (xs : List A) → take (length xs) xs ≡ xs
  take-all [] = refl
  take-all (x ∷ xs) = ap (λ (t : List A). x ∷ t) (take-all xs)

module _ {ℓ} {A : Type ℓ} (overflow_checks : Bool) where
  slice_from-back :
      (xs : List A) (n : ℕ)
      → n < length xs
      → length xs < 2 ^ 63
      → slice_from overflow_checks xs (negsuc 0) (suc n) (pos n) ≡ some (reverse (take (suc n) xs))
  unfolding slice_from
  slice_from-back [] n h l = absurd (omega (arith, h))
  slice_from-back (x ∷ xs) zero h l =
      let next : pos 0 +ℤ negsuc 0 ≡ negsuc 0 = unfold ◌+ℤ◌ in refl in
      rw (next, i64_result-fits overflow_checks (negsuc 0) (omega arith) (omega arith)) refl
  slice_from-back (y ∷ xs) (suc n) h l =
      let (x, e, d) = take-last (suc n) (y ∷ xs) h in
      let next : pos (suc n) +ℤ negsuc 0 ≡ pos n = unfold ◌+ℤ◌ in ground arith in
      rw
        (
          e,
          next,
          i64_result-fits overflow_checks (pos n) (omega (arith, h, l)) (omega arith),
          slice_from-back (y ∷ xs) n (omega (arith, h)) l,
        )
        (ap some (sym (ap reverse d ∙ reverse-append (take (suc n) (y ∷ xs)) (x ∷ []))))

  -- A slice with the step -1 and no bounds, of a list of fewer than 2 ^ 63 elements, is the list in
  -- reverse.
  pub list_slice-reverse :
      (xs : List A)
      → length xs < 2 ^ 63
      → list_slice overflow_checks xs none none (some (negsuc 0)) ≡ some (reverse xs)
  unfolding list_slice slice_unpack slice_adjust_indices slice_from slice_len_of
  list_slice-reverse [] h = rw (adjust-empty, adjust-before 0 (omega arith)) refl
  list_slice-reverse (x ∷ xs) h =
      let n : ℕ = length xs in
      rw (adjust-last n (omega (arith, h)), adjust-before (suc n) h)
        (rw (slice_len_of-all overflow_checks n) (
          slice_from-back (x ∷ xs) n (omega arith) h
          ∙ ap (λ t. some (reverse t)) (take-all (x ∷ xs))))
