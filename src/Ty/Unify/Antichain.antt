-- ===== src/Ty/Unify/Antichain.antt =====
-- Step 3 of `typeof`: what is kept, and what is not.
use kclvm.Prelude.{
  Bool, true, false, ◌||◌, ◌≡◌, ◌⊎◌, inl, inr, ◌∙◌, refl, sym, subst, Text, List, [], ◌∷◌, ◌++◌,
  Option, some, none, ◌>>=◌, if◌then◌else◌, All, >>=-eq-some, arith,
}
use kclvm.Prelude.Pairs.{AllPairs, Member, All-left, All-right, All-member, All-imp}
use mathlib.Core.List.{append_assoc}
use kclvm.Ty.Kind.{Ty, F64}
use kclvm.Ty.Unify.{subsume, below_one, remove_sub_types}

or_m-false :
    (a b : Option Bool)
    → (a >>= λ x. b >>= λ y. some (x || y)) ≡ some false
    → (a ≡ some false) × (b ≡ some false)
or_m-false a b h = (ground arith, ground arith)

or_m-true :
    (a b : Option Bool)
    → (a >>= λ x. b >>= λ y. some (x || y)) ≡ some true
    → (a ≡ some true) ⊎ (b ≡ some true)
or_m-true (some true) b h = inl refl
or_m-true (some false) b h = inr (ground arith)
or_m-true none b h = absurd (ground arith)

module _ (show_f64 : F64 → Text) where
  abbrev pub NotBelow : Ty → Ty → Type 0
  NotBelow t u = subsume show_f64 t u false ≡ some false

  abbrev pub Unrelated : Ty → Ty → Type 0
  Unrelated t u = NotBelow t u × NotBelow u t

  below_one-false :
      (t : Ty) (us : List Ty) → below_one show_f64 t us ≡ some false → All (NotBelow t) us
  unfolding below_one
  below_one-false t [] h = tt
  below_one-false t (u ∷ us) h =
      let (p, q) = or_m-false (subsume show_f64 t u false) (below_one show_f64 t us) h in
      (p, below_one-false t us q)

  below_one-true :
      (t : Ty) (us : List Ty)
      → below_one show_f64 t us ≡ some true
      → (u : Ty) × Member u us × (subsume show_f64 t u false ≡ some true)
  unfolding below_one
  below_one-true t [] h = absurd (ground arith)
  below_one-true t (u ∷ us) h =
      elim (or_m-true (subsume show_f64 t u false) (below_one show_f64 t us) h) [
        | inl p ↦ (u, inl refl, p)
        | inr q ↦ let (v, m, e) = below_one-true t us q in (v, inr m, e)
      ]

  -- One round of the outer loop.
  round :
      (before : List Ty) (t : Ty) (after kept : List Ty)
      → remove_sub_types show_f64 before (t ∷ after) ≡ some kept
      → (b : Bool) × (rest : List Ty) × (below_one show_f64 t (before ++ after) ≡ some b)
        × (remove_sub_types show_f64 (before ++ t ∷ []) after ≡ some rest)
        × (kept ≡ (if b then rest else t ∷ rest))
  unfolding remove_sub_types
  round before t after kept h =
      let (b, e, h') = >>=-eq-some (below_one show_f64 t (before ++ after)) _ h in
      let (rest, d, h2) = >>=-eq-some (remove_sub_types show_f64 (before ++ t ∷ []) after) _ h' in
      (b, rest, e, d, cc)

  -- What is known of a type that is kept: it is one of `xs`, and below none of `before`.
  abbrev KeptAfter : List Ty → List Ty → Ty → Type 0
  KeptAfter before xs u = Member u xs × All (NotBelow u) before

  kept_later :
      (before : List Ty) (t : Ty) (xs : List Ty) (u : Ty)
      → KeptAfter (before ++ t ∷ []) xs u
      → KeptAfter before (t ∷ xs) u
  kept_later before t xs u (m, h) = (inr m, All-left (NotBelow u) before (t ∷ []) h)

  kept_members :
      (before xs kept : List Ty)
      → remove_sub_types show_f64 before xs ≡ some kept
      → All (KeptAfter before xs) kept
  kept_members before [] kept h = let e : kept ≡ [] = unfold remove_sub_types in cc in rw e tt
  kept_members before (t ∷ xs) kept h =
      let (b, rest, e, d, k) = round before t xs kept h in
      let ih =
        All-imp (KeptAfter (before ++ t ∷ []) xs) (KeptAfter before (t ∷ xs))
          (kept_later before t xs) rest (kept_members (before ++ t ∷ []) xs rest d) in
      rw k (if_kept b rest e ih)
    where
      if_kept :
          (b : Bool) (rest : List Ty)
          → below_one show_f64 t (before ++ xs) ≡ some b
          → All (KeptAfter before (t ∷ xs)) rest
          → All (KeptAfter before (t ∷ xs)) (if b then rest else t ∷ rest)
      if_kept true rest e ih = ih
      if_kept false rest e ih =
          ((inl refl, All-left (NotBelow t) before xs (below_one-false t (before ++ xs) e)), ih)

  kept_pairs :
      (before xs kept : List Ty)
      → remove_sub_types show_f64 before xs ≡ some kept
      → AllPairs Unrelated kept
  kept_pairs before [] kept h = let e : kept ≡ [] = unfold remove_sub_types in cc in rw e tt
  kept_pairs before (t ∷ xs) kept h =
      let (b, rest, e, d, k) = round before t xs kept h in
      rw k (
        if_kept b rest e (kept_members (before ++ t ∷ []) xs rest d)
          (kept_pairs (before ++ t ∷ []) xs rest d))
    where
      if_kept :
          (b : Bool) (rest : List Ty)
          → below_one show_f64 t (before ++ xs) ≡ some b
          → All (KeptAfter (before ++ t ∷ []) xs) rest
          → AllPairs Unrelated rest
          → AllPairs Unrelated (if b then rest else t ∷ rest)
      if_kept true rest e m ih = ih
      if_kept false rest e m ih =
          let above = All-right (NotBelow t) before xs (below_one-false t (before ++ xs) e) in
          (
            All-imp (KeptAfter (before ++ t ∷ []) xs) (Unrelated t)
                (λ u q. (
                  All-member (NotBelow t) xs u above q.0,
                  (All-right (NotBelow u) before (t ∷ []) q.1).0,
                ))
                rest m,
            ih,
          )

  -- A type that is left out is below the type at another place.
  abbrev pub BelowAnother : List Ty → Ty → Type 0
  BelowAnother types t =
      (before : List Ty) × (after : List Ty) × (u : Ty) × (types ≡ before ++ t ∷ after)
      × Member u (before ++ after)
      × (subsume show_f64 t u false ≡ some true)

  KeptOrBelow : List Ty → List Ty → Ty → Type 0
  KeptOrBelow types kept u = Member u kept ⊎ BelowAnother types u

  kept_or_later :
      (b : Bool) (t : Ty) (types rest : List Ty) (u : Ty)
      → KeptOrBelow types rest u
      → KeptOrBelow types (if b then rest else t ∷ rest) u
  unfolding KeptOrBelow
  kept_or_later true t types rest u h = h
  kept_or_later false t types rest u (inl m) = inl (inr m)
  kept_or_later false t types rest u (inr q) = inr q

  left_out :
      (types before xs kept : List Ty)
      → types ≡ before ++ xs
      → remove_sub_types show_f64 before xs ≡ some kept
      → All (KeptOrBelow types kept) xs
  left_out types before [] kept p h = tt
  left_out types before (t ∷ xs) kept p h =
      let (b, rest, e, d, k) = round before t xs kept h in
      let ih =
        left_out types (before ++ t ∷ []) xs rest (p ∙ sym (append_assoc before (t ∷ []) xs)) d in
      subst (λ l. All (KeptOrBelow types l) (t ∷ xs)) (sym k)
        (
          if_kept b rest e,
          All-imp (KeptOrBelow types rest) (KeptOrBelow types (if b then rest else t ∷ rest))
              (kept_or_later b t types rest) xs ih,
        )
    where
      if_kept :
          (b : Bool) (rest : List Ty)
          → below_one show_f64 t (before ++ xs) ≡ some b
          → KeptOrBelow types (if b then rest else t ∷ rest) t
      if_kept true rest e =
          let (u, m, q) = below_one-true t (before ++ xs) e in
          unfold KeptOrBelow in inr (before, xs, u, p, m, q)
      if_kept false rest e = unfold KeptOrBelow in inl (inl refl)

  -- Where step 3 of `typeof` returns, it keeps types of the set only, of which no two are one
  -- below the other, and each type that it leaves out is below the type at another place of the
  -- set.
  pub remove_sub_types-antichain :
      (types kept : List Ty)
      → remove_sub_types show_f64 [] types ≡ some kept
      → All (λ t. Member t types) kept
        × AllPairs Unrelated kept
        × All (λ t. Member t kept ⊎ BelowAnother types t) types
  unfolding KeptOrBelow
  remove_sub_types-antichain types kept h = (
    All-imp (KeptAfter [] types) (λ t. Member t types) (λ t q. q.0) kept
        (kept_members [] types kept h),
    kept_pairs [] types kept h,
    left_out types [] types kept refl h,
  )
