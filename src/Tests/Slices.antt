-- ===== src/Tests/Slices.antt =====
-- Slices of a list of numbers, and the witnesses of their theorems.
use kclvm.Prelude.{
  ℕ, ◌-◌, ◌≡◌, ◌≢◌, refl, List, [], ◌∷◌, none, some, arith, take, drop, length, true, false, inr,
}
use kclvm.Prelude.Int.{pos, negsuc, ◌+ℤ◌, ◌-ℤ◌}
use kclvm.Runtime.Slice.{
  slice_unpack, adjust, slice_len_of, slice_adjust_indices, slice_from, list_slice, i64_result,
  quotient, i64_max, i64_min,
}
use kclvm.Runtime.Slice.Returns.{list_slice-Returns}
use kclvm.Runtime.Slice.Reversed.{list_slice-reverse}
use kclvm.Runtime.Slice.Reference.{place, list_slice-part}

abbrev digits : List ℕ
digits = 1 ∷ 2 ∷ 3 ∷ 4 ∷ 5 ∷ []

-- `[1, 2, 3, 4, 5][:-4:-2]`, of which the last place is the third from the end.
every_second_back :
    list_slice true digits none (some (negsuc 3)) (some (negsuc 1)) ≡ some (5 ∷ 3 ∷ [])
unfolding slice_unpack adjust slice_len_of slice_adjust_indices slice_from list_slice i64_result
    quotient ◌+ℤ◌ ◌-ℤ◌
every_second_back = refl

step_zero_panics : list_slice false digits none none (some (pos 0)) ≡ none
unfolding list_slice slice_unpack
step_zero_panics = refl

-- The place after the last element overflows; without checks it is not used.
greatest_step_panics : list_slice true digits (some (pos 1)) none (some i64_max) ≡ none
unfolding slice_unpack adjust slice_len_of slice_adjust_indices slice_from list_slice i64_result
    quotient ◌+ℤ◌ ◌-ℤ◌
greatest_step_panics = refl

greatest_step_wraps : list_slice false digits (some (pos 1)) none (some i64_max) ≡ some (2 ∷ [])
unfolding slice_unpack adjust slice_len_of slice_adjust_indices slice_from list_slice i64_result
    quotient ◌+ℤ◌ ◌-ℤ◌
greatest_step_wraps = refl

-- The least step overflows when it is negated.
least_step_panics : list_slice true digits none none (some i64_min) ≡ none
unfolding slice_unpack adjust slice_len_of slice_adjust_indices slice_from list_slice i64_result
    quotient ◌+ℤ◌ ◌-ℤ◌
least_step_panics = refl

least_step_wraps : list_slice false digits none none (some i64_min) ≡ some (5 ∷ [])
unfolding slice_unpack adjust slice_len_of slice_adjust_indices slice_from list_slice i64_result
    quotient ◌+ℤ◌ ◌-ℤ◌
least_step_wraps = refl

back_not_zero : some (negsuc 1) ≢ some (pos 0)
back_not_zero e = cc

list_slice-Returns_example :
    (r : List ℕ) × (list_slice true digits none (some (negsuc 3)) (some (negsuc 1)) ≡ some r)
list_slice-Returns_example =
    list_slice-Returns true digits none (some (negsuc 3)) (some (negsuc 1)) back_not_zero
      (omega arith, omega arith) (omega arith) (inr (omega arith, omega arith))

list_slice-part_example :
    list_slice true digits (some (negsuc 3)) none none
    ≡ some (
        take
          (place (length digits) (pos (length digits)) - place (length digits) (negsuc 3))
          (drop (place (length digits) (negsuc 3)) digits))
list_slice-part_example = list_slice-part true digits (some (negsuc 3)) none (omega arith)

list_slice-reverse_example :
    list_slice true digits none none (some (negsuc 0)) ≡ some (5 ∷ 4 ∷ 3 ∷ 2 ∷ 1 ∷ [])
list_slice-reverse_example = list_slice-reverse true digits (omega arith)
