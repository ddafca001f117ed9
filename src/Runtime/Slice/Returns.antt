-- ===== src/Runtime/Slice/Returns.antt =====
-- When slices do not panic.
use kclvm.Prelude.{
  ℕ, zero, suc, ◌+◌, ◌-◌, ◌*◌, ◌/◌, ◌^◌, ◌⊎◌, inl, inr, Bool, ◌>>=◌, ap, ◌≤◌, ◌<◌, ◌≡◌, ◌≢◌, refl,
  true, false, List, [], ◌∷◌, Option, none, some, arith, length, get_elem?,
}
use kclvm.Prelude.Int.{ℤ, pos, negsuc, ◌+ℤ◌, ◌-ℤ◌, ltb_ℤ, pos_part, neg_part}
use kclvm.Lexer.Eats.{if_case}
use kclvm.Runtime.Slice.{
  i64_max, i64_min, value_or, slice_unpack, adjust, slice_len_of, slice_adjust_indices, slice_from,
  list_slice, i64_result, quotient,
}
use kclvm.Runtime.Slice.Steps.{
  is_negative-pos, is_negative-negsuc, adjust-forward, adjust-back, suc_mul, step_forward,
  step_back, gap, gap_back, last_in, quotient-pos, i64_result-fits, back_count, Moves,
  Moves-forward, Moves-back, FitsI64, IsSmallStep,
}

module _ (overflow_checks : Bool) where
  module _ {ℓ} {A : Type ℓ} where
    get_elem?-in : (xs : List A) (i : ℕ) → i < length xs → (x : A) × (get_elem? xs i ≡ some x)
    get_elem?-in [] i h = absurd (omega (arith, h))
    get_elem?-in (x ∷ xs) zero h = (x, refl)
    get_elem?-in (x ∷ xs) (suc i) h = get_elem?-in xs i (omega (arith, h))

    abbrev Returns : Option (List A) → Type ℓ
    Returns o = (r : List A) × (o ≡ some r)

    turn-Returns :
        (values : List A) (step next : ℤ) (n c : ℕ)
        → c < length values
        → i64_result overflow_checks (pos c +ℤ step) ≡ some next
        → Returns (slice_from overflow_checks values step n next)
        → Returns (slice_from overflow_checks values step (suc n) (pos c))
    unfolding slice_from
    turn-Returns values step next n c h i (r, e) =
        let (x, k) = get_elem?-in values c h in (x ∷ r, rw (k, i, e) refl)

    last-Returns :
        (values : List A) (step : ℤ) (c : ℕ)
        → Moves overflow_checks (length values) step
        → c < length values
        → Returns (slice_from overflow_checks values step 1 (pos c))
    unfolding slice_from
    last-Returns values step c moves h =
        let (v, i) = moves c h in turn-Returns values step v 0 c h i ([], refl)

    forward-Returns :
        (values : List A) (k m c : ℕ)
        → Moves overflow_checks (length values) (pos k)
        → length values < 2 ^ 63
        → c + m * k < length values
        → Returns (slice_from overflow_checks values (pos k) (suc m) (pos c))
    forward-Returns values k zero c moves l h =
        last-Returns values (pos k) c moves (omega (arith, h))
    forward-Returns values k (suc m) c moves l h =
        let below : c + k < length values = omega (arith, h, suc_mul m k) in
        turn-Returns values (pos k) (pos (c + k)) (suc m) c (omega (arith, below))
          (rw (step_forward c k)
            (i64_result-fits overflow_checks (pos (c + k)) (omega (arith, below, l)) (omega arith)))
          (forward-Returns values k m (c + k) moves l (omega (arith, h, suc_mul m k)))

    back-Returns :
        (values : List A) (j m c : ℕ)
        → Moves overflow_checks (length values) (negsuc j)
        → length values < 2 ^ 63
        → m * suc j ≤ c
        → c < length values
        → Returns (slice_from overflow_checks values (negsuc j) (suc m) (pos c))
    back-Returns values j zero c moves n l h = last-Returns values (negsuc j) c moves h
    back-Returns values j (suc m) c moves n l h =
        let enough : suc j ≤ c = omega (arith, l, suc_mul m (suc j)) in
        turn-Returns values (negsuc j) (pos (c - suc j)) (suc m) c h
          (rw (step_back c j enough)
            (i64_result-fits overflow_checks (pos (c - suc j)) (omega (arith, h, n)) (omega arith)))
          (back-Returns values j m (c - suc j) moves n (omega (arith, l, suc_mul m (suc j)))
            (omega (arith, h)))

    -- The count of a slice between two bounds, and its loop.
    abbrev Between : List A → ℤ → ℤ → Option ℤ → Type ℓ
    Between values step a o =
        (n : ℕ) × (o ≡ some (pos n)) × Returns (slice_from overflow_checks values step n a)

    Between-forward :
        (values : List A) (k : ℕ) (a b : ℤ)
        → Moves overflow_checks (length values) (pos (suc k))
        → length values < 2 ^ 63
        → neg_part a ≡ 0
        → neg_part b ≡ 0
        → pos_part b ≤ length values
        → Between values (pos (suc k)) a (slice_len_of overflow_checks a b (pos (suc k)))
    unfolding slice_len_of slice_from
    Between-forward values k (negsuc c) b moves n h l e = absurd (omega (arith, h))
    Between-forward values k (pos c) (negsuc d) moves n h l e = absurd (omega (arith, l))
    Between-forward values k (pos c) (pos d) moves n h l e = rw (is_negative-pos (suc k)) (
        if_case (Between values (pos (suc k)) (pos c)) (ltb_ℤ (pos c) (pos d))
          (λ t.
            let (g, q, s) = gap c d (ground (arith, t)) in
            (
              suc (g / suc k),
              rw q (ap some (quotient-pos g (suc k))),
              forward-Returns values (suc k) (g / suc k) c moves n
                  (omega (arith, e, last_in g k, s)),
            ))
          (λ _. (0, refl, ([], refl))))

    steps_back :
        (values : List A) (j : ℕ) (a b : ℤ)
        → suc j ≤ 2 ^ 63
        → (overflow_checks ≡ false) ⊎ (suc j < 2 ^ 63)
        → length values < 2 ^ 63
        → neg_part b ≤ 1
        → pos_part a + 1 ≤ length values + neg_part a
        → ltb_ℤ b a ≡ true
        → Between values (negsuc j) a (
            i64_result overflow_checks (pos 0 -ℤ negsuc j) >>= λ back.
            some (quotient (a -ℤ b -ℤ pos 1) back +ℤ pos 1))
    steps_back values j (negsuc c) b m s n l e t = absurd (ground (arith, l, t))
    steps_back values j (pos c) b m s n l e t =
        let (g, q, r) = gap_back c b l t in
        let (k, d, p) = back_count overflow_checks g j (omega (arith, r, e, n)) m s in
        (
          suc k,
          rw q d,
          back-Returns values j k c (Moves-back overflow_checks (length values) j m n) n
              (omega (arith, p, r)) (omega (arith, e)),
        )

    Between-back :
        (values : List A) (j : ℕ) (a b : ℤ)
        → suc j ≤ 2 ^ 63
        → (overflow_checks ≡ false) ⊎ (suc j < 2 ^ 63)
        → length values < 2 ^ 63
        → neg_part b ≤ 1
        → pos_part a + 1 ≤ length values + neg_part a
        → Between values (negsuc j) a (slice_len_of overflow_checks a b (negsuc j))
    unfolding slice_len_of slice_from
    Between-back values j a b m s n l e = rw (is_negative-negsuc j) (
        if_case (Between values (negsuc j) a) (ltb_ℤ b a) (λ t. steps_back values j a b m s n l e t)
          (λ _. (0, refl, ([], refl))))

    adjusted-Returns :
        (values : List A) (step start stop : ℤ)
        → (let len : ℤ = pos (length values) in
            let a = adjust len start step in
            Between values step a (slice_len_of overflow_checks a (adjust len stop step) step))
        → Returns (
            slice_adjust_indices overflow_checks (pos (length values)) start stop step >>= λ r.
            slice_from overflow_checks values step (pos_part r.2) r.0)
    unfolding slice_adjust_indices
    adjusted-Returns values step start stop (n, e, r) = rw e r

    forward :
        (values : List A) (k : ℕ) (start stop : ℤ)
        → Moves overflow_checks (length values) (pos (suc k))
        → length values < 2 ^ 63
        → Returns (
            slice_adjust_indices overflow_checks (pos (length values)) start stop (pos (suc k))
            >>= λ r. slice_from overflow_checks values (pos (suc k)) (pos_part r.2) r.0)
    forward values k start stop moves n =
        let len = length values in
        adjusted-Returns values (pos (suc k)) start stop (
          Between-forward values k _ _ moves n (adjust-forward len (suc k) start).0
            (adjust-forward len (suc k) stop).0 (adjust-forward len (suc k) stop).1)

    -- A slice does not panic, whatever its bounds, if its step is an `i64` that is not zero, the list
    -- has fewer than 2 ^ 63 elements, and either the build does not check for overflow, or the step is
    -- small: it is not the least `i64`, and its sum with the length is at most 2 ^ 63.
    pub list_slice-Returns :
        (values : List A) (start stop step : Option ℤ)
        → step ≢ some (pos 0)
        → FitsI64 step
        → length values < 2 ^ 63
        → (overflow_checks ≡ false) ⊎ IsSmallStep (length values) step
        → (r : List A) × (list_slice overflow_checks values start stop step ≡ some r)
    unfolding list_slice slice_unpack
    list_slice-Returns values start stop none h f n s =
        forward values 0 (value_or start (pos 0)) (value_or stop i64_max)
          (Moves-forward overflow_checks (length values) 1 (omega arith) n (inr (omega (arith, n))))
          n
    list_slice-Returns values start stop (some (pos zero)) h f n s = absurd (h refl)
    list_slice-Returns values start stop (some (pos (suc k))) h f n s =
        let small : (overflow_checks ≡ false) ⊎ (suc k + length values ≤ 2 ^ 63) = elim s [
          | inl e ↦ inl e
          | inr (m, _) ↦ inr m
        ] in
        rw (is_negative-pos (suc k)) (
          forward values k (value_or start (pos 0)) (value_or stop i64_max)
            (Moves-forward overflow_checks (length values) (suc k) f.0 n small) n)
    list_slice-Returns values start stop (some (negsuc j)) h f n s =
        let len = length values in
        let small : (overflow_checks ≡ false) ⊎ (suc j < 2 ^ 63) = elim s [
          | inl e ↦ inl e
          | inr (_, m) ↦ inr m
        ] in
        rw (is_negative-negsuc j) (
          adjusted-Returns values (negsuc j) (value_or start i64_max) (value_or stop i64_min) (
            Between-back values j _ _ f.1 small n (adjust-back len j (value_or stop i64_min)).0
              (adjust-back len j (value_or start i64_max)).1))
