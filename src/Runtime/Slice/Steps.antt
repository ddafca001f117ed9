-- ===== src/Runtime/Slice/Steps.antt =====
-- The bounds, the steps and the counts of slices, in and out of the range of `i64`.
use kclvm.Prelude.{
  ℕ, suc, ◌+◌, ◌-◌, ◌*◌, ◌/◌, ◌^◌, ◌⊎◌, inl, inr, Bool, ◌>>=◌, ap, ◌≤◌, ◌<◌, ◌≡◌, refl, true, false,
  Option, none, some, arith,
}
use kclvm.Prelude.Int.{ℤ, pos, negsuc, ◌+ℤ◌, ◌-ℤ◌, ltb_ℤ, pos_part, neg_part}
use kclvm.Lexer.Eats.{if_lem}
use kclvm.Runtime.Slice.{i64_max, i64_min, is_negative, adjust, i64_result, quotient}
use native.Mathlib.Nat.{div-mul-le_self}

pub is_negative-pos : (n : ℕ) → is_negative (pos n) ≡ false
is_negative-pos n = ground arith

pub is_negative-negsuc : (n : ℕ) → is_negative (negsuc n) ≡ true
is_negative-negsuc n = ground arith

-- A step forward moves a bound into the list or to its end.
pub adjust-forward :
    (len k : ℕ) (bound : ℤ)
    → (neg_part (adjust (pos len) bound (pos k)) ≡ 0)
      × (pos_part (adjust (pos len) bound (pos k)) ≤ len)
unfolding adjust ◌+ℤ◌ ◌-ℤ◌
adjust-forward len k bound = (ground arith, ground arith)

-- A step back moves a bound into the list or before it.
pub adjust-back :
    (len j : ℕ) (bound : ℤ)
    → (neg_part (adjust (pos len) bound (negsuc j)) ≤ 1)
      × (pos_part (adjust (pos len) bound (negsuc j)) + 1
          ≤ len + neg_part (adjust (pos len) bound (negsuc j)))
unfolding adjust ◌+ℤ◌ ◌-ℤ◌
adjust-back len j bound = (ground arith, ground arith)

pub suc_mul : (m k : ℕ) → suc m * k ≡ k + m * k
suc_mul m k = omega arith

pub step_forward : (c k : ℕ) → pos c +ℤ pos k ≡ pos (c + k)
unfolding ◌+ℤ◌
step_forward c k = ground arith

sum_fits : (c j : ℕ) → (pos_part (pos c +ℤ negsuc j) ≤ c) × (neg_part (pos c +ℤ negsuc j) ≤ suc j)
unfolding ◌+ℤ◌
sum_fits c j = (ground arith, ground arith)

pub step_back : (c j : ℕ) → suc j ≤ c → pos c +ℤ negsuc j ≡ pos (c - suc j)
unfolding ◌+ℤ◌
step_back c j h = ground (arith, h)

-- The gap between two bounds, as a number.
pub gap : (c d : ℕ) → c < d → (g : ℕ) × (pos d -ℤ pos c -ℤ pos 1 ≡ pos g) × (g + suc c ≡ d)
unfolding ◌-ℤ◌
gap c d h = (d - c - 1, ground (arith, h), omega (arith, h))

pub gap_back :
    (c : ℕ) (b : ℤ)
    → neg_part b ≤ 1
    → ltb_ℤ b (pos c) ≡ true
    → (g : ℕ) × (pos c -ℤ b -ℤ pos 1 ≡ pos g) × (g ≤ c)
unfolding ◌-ℤ◌
gap_back c (pos d) l t = (c - d - 1, ground (arith, t), omega arith)
gap_back c (negsuc d) l t = (c - 0, ground (arith, l), omega arith)

-- The last place is no further away than the end.
pub last_in : (a k : ℕ) → a / suc k * suc k ≤ a
last_in a k = div-mul-le_self a (suc k)

pub quotient-pos : (g k : ℕ) → quotient (pos g) (pos k) +ℤ pos 1 ≡ pos (suc (g / k))
unfolding quotient ◌+ℤ◌
quotient-pos g k = ground arith

-- By the least `i64` a smaller number gives no whole part.
quotient-least : (g : ℕ) → g < 2 ^ 63 → quotient (pos g) i64_min +ℤ pos 1 ≡ pos 1
unfolding quotient ◌+ℤ◌ ◌-ℤ◌
quotient-least g h = ground (arith, h)

-- An integer of a value that is an `i64`.
abbrev pub FitsI64 : Option ℤ → Type 0
FitsI64 none = Unit
FitsI64 (some a) = (pos_part a < 2 ^ 63) × (neg_part a ≤ 2 ^ 63)

-- A step that can be negated, and added to a place in a list of so many elements.
abbrev pub IsSmallStep : ℕ → Option ℤ → Type 0
IsSmallStep len none = Unit
IsSmallStep len (some a) = (pos_part a + len ≤ 2 ^ 63) × (neg_part a < 2 ^ 63)

small_or_least : (j : ℕ) → suc j ≤ 2 ^ 63 → (suc j < 2 ^ 63) ⊎ (suc j ≡ 2 ^ 63)
small_or_least j l = omega (arith, l)

negated : (j : ℕ) → pos 0 -ℤ negsuc j ≡ pos (suc j)
unfolding ◌-ℤ◌
negated j = ground arith

wraps_to_least : (c : Bool) → c ≡ false → i64_result c (pos (2 ^ 63)) ≡ some i64_min
unfolding i64_result ◌-ℤ◌
wraps_to_least c e = rw e refl

module _ (overflow_checks : Bool) where
  pub i64_result-fits :
      (a : ℤ) → pos_part a < 2 ^ 63 → neg_part a ≤ 2 ^ 63 → i64_result overflow_checks a ≡ some a
  unfolding i64_result
  i64_result-fits a h k = ground (arith, h, k)

  i64_result-wraps :
      (a : ℤ) → overflow_checks ≡ false → (v : ℤ) × (i64_result overflow_checks a ≡ some v)
  unfolding i64_result
  i64_result-wraps a e = rw e (
      if_lem (λ (o : Option ℤ). (v : ℤ) × (o ≡ some v)) (ltb_ℤ i64_max a) (_, refl)
        (if_lem (λ (o : Option ℤ). (v : ℤ) × (o ≡ some v)) (ltb_ℤ a i64_min) (_, refl) (_, refl)))

  -- How many elements a step back takes: the places of all but the last are in the list.
  pub back_count :
      (g j : ℕ)
      → g < 2 ^ 63
      → suc j ≤ 2 ^ 63
      → (overflow_checks ≡ false) ⊎ (suc j < 2 ^ 63)
      → (m : ℕ) × ((i64_result overflow_checks (pos 0 -ℤ negsuc j) >>= λ back.
            some (quotient (pos g) back +ℤ pos 1))
          ≡ some (pos (suc m)))
        × (m * suc j ≤ g)
  back_count g j h l s = elim (small_or_least j l) [
    | inl m ↦ (
      g / suc j,
      rw (negated j, i64_result-fits (pos (suc j)) m (omega arith))
          (ap some (quotient-pos g (suc j))),
      last_in g j,
    )
    | inr e ↦ (0, rw (negated j, e, least (off s e)) (ap some (quotient-least g h)), omega arith)
  ]
    where
      off : (overflow_checks ≡ false) ⊎ (suc j < 2 ^ 63) → suc j ≡ 2 ^ 63 → overflow_checks ≡ false
      off (inl c) e = c
      off (inr m) e = absurd (omega (arith, m, e))

      least : overflow_checks ≡ false → i64_result overflow_checks (pos (2 ^ 63)) ≡ some i64_min
      least c = wraps_to_least overflow_checks c

  -- The place after one in the list is a value, whatever the build does on overflow.
  abbrev pub Moves : ℕ → ℤ → Type 0
  Moves len step =
      (c : ℕ) → c < len → (v : ℤ) × (i64_result overflow_checks (pos c +ℤ step) ≡ some v)

  pub Moves-forward :
      (len k : ℕ)
      → k < 2 ^ 63
      → len < 2 ^ 63
      → (overflow_checks ≡ false) ⊎ (k + len ≤ 2 ^ 63)
      → Moves len (pos k)
  Moves-forward len k h l (inl e) c m = i64_result-wraps (pos c +ℤ pos k) e
  Moves-forward len k h l (inr s) c m = (
    pos (c + k),
    rw (step_forward c k) (i64_result-fits (pos (c + k)) (omega arith) (omega arith)),
  )

  pub Moves-back : (len j : ℕ) → suc j ≤ 2 ^ 63 → len < 2 ^ 63 → Moves len (negsuc j)
  Moves-back len j h l c m =
      let (d, e) = sum_fits c j in
      (
        pos c +ℤ negsuc j,
        i64_result-fits (pos c +ℤ negsuc j) (omega (arith, d, m, l)) (omega (arith, e, h)),
      )
