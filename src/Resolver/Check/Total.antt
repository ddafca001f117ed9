-- ===== src/Resolver/Check/Total.antt =====
-- That the checks of kclvm/sema/src/resolver/ty.rs return, and what they do to the handler.
use kclvm.Prelude.{
  ℕ, zero, suc, ◌+◌, ◌≤◌, Bool, true, false, not, ◌≡◌, refl, inl, inr, some, Text, if◌then◌else◌,
  arith, Returns, Bool-cases,
}
use kclvm.Handler.{Handler, add_type_error}
use kclvm.Handler.Grows.{Extends, Extends-refl, add_type_error-Extends}
use kclvm.Ty.Kind.{
  Ty, ty, Tys, nil, cons, TypeKind, F64, schema_type, OptIndex, no_index, some_index, Position,
}
use kclvm.Ty.Flags.{is_assignable_type}
use kclvm.Ty.Unify.{assignable_to}
use kclvm.Ty.Unify.Size.{size-pos, size, size_list}
use kclvm.Ty.Unify.Total.{subsume-Returns, and_then-Returns}
use kclvm.Ty.WellFormed.{IsWellFormed, TysAreWellFormed}
use kclvm.Resolver.Check.{
  Checked, index_msg, check_index, dict_assignable_to_schema, check_assignable, check_step,
  check_type_fuel, check_type,
}
use kclvm.Resolver.Check.Combine.{
  HasWellFormedIndexes, TysHaveWellFormedIndexes, IndexIsWellFormed, Checks, and_check-Checks,
  all_check-Checks, any_check-Checks, AllCheck,
}

module _ (show_f64 : F64 → Text) where
  assignable_to-Returns :
      (t expected : Ty)
      → IsWellFormed t
      → IsWellFormed expected
      → Returns (assignable_to show_f64 t expected)
  unfolding assignable_to
  assignable_to-Returns t expected w v = elim (Bool-cases (is_assignable_type t)) [
    | inl e ↦ rw e (subsume-Returns show_f64 t expected true w v)
    | inr e ↦ rw e (false, refl)
  ]

  check_assignable-Checks :
      (t expected : Ty) (h : Handler)
      → IsWellFormed t
      → IsWellFormed expected
      → Checks h (check_assignable show_f64 t expected h)
  unfolding check_assignable Checks
  check_assignable-Checks t expected h w v =
      let (b, e) = assignable_to-Returns t expected w v in rw e (b, h, refl, Extends-refl h)

  check_index-Checks :
      (key val : Ty) (x : OptIndex) (p : Position) (h : Handler)
      → IsWellFormed key
      → IsWellFormed val
      → IndexIsWellFormed x
      → Checks h (check_index show_f64 key val x p h)
  unfolding check_index Checks
  check_index-Checks key val no_index p h wk wv wx = (true, h, refl, Extends-refl h)
  check_index-Checks key val (some_index i k v) p h wk wv wx =
      let (fits, e) = assignable_to-Returns val v wv wx.1 in
      let (b, d) =
        and_then-Returns (assignable_to-Returns key k wk wx.0)
          (assignable_to-Returns val v wv wx.1) in
      rw (d, e) (index fits b)
    where
      reported : Bool → Handler
      reported fits = if not fits then add_type_error (index_msg show_f64 v val) p h else h

      reported-Extends : (fits : Bool) → Extends h (reported fits)
      reported-Extends true = Extends-refl h
      reported-Extends false = add_type_error-Extends _ p h

      outcome : Bool → Bool → Checked
      outcome fits b = if i.any_other then some (b, reported fits) else some (true, reported fits)

      index :
          (fits b : Bool)
          → (c : Bool) × (j : Handler) × (outcome fits b ≡ some (c, j)) × Extends h j
      index fits b = elim (Bool-cases i.any_other) [
        | inl e ↦ rw e (b, reported fits, refl, reported-Extends fits)
        | inr e ↦ rw e (true, reported fits, refl, reported-Extends fits)
      ]

  -- The match returns where its recursive calls do.
  module _ (rec : Ty → Ty → Handler → Checked) (n : ℕ)
      (ih : (l r : Ty) (h : Handler)
        → IsWellFormed l
        → IsWellFormed r
        → HasWellFormedIndexes r
        → size l + size r ≤ n
        → Checks h (rec l r h)) where
    all_left :
        (r : Ty) (ts : Tys) (m : ℕ)
        → IsWellFormed r
        → HasWellFormedIndexes r
        → TysAreWellFormed ts
        → m + size r ≤ n
        → AllCheck (λ t. rec t r) m ts
    all_left r nil m w x ws s = tt
    all_left r (cons t ts) m w x ws s =
        (λ q h. ih t r h ws.0 w x (omega arith), all_left r ts m w x ws.1 s)

    all_right :
        (l : Ty) (ts : Tys) (m : ℕ)
        → IsWellFormed l
        → TysAreWellFormed ts
        → TysHaveWellFormedIndexes ts
        → size l + m ≤ n
        → AllCheck (rec l) m ts
    all_right l nil m w ws xs s = tt
    all_right l (cons t ts) m w ws xs s =
        (λ q h. ih l t h w ws.0 xs.0 (omega arith), all_right l ts m w ws.1 xs.1 s)

    step-Checks :
        (l r : Ty) (p : Position) (h : Handler)
        → IsWellFormed l
        → IsWellFormed r
        → HasWellFormedIndexes r
        → size l + size r ≤ suc n
        → Checks h (check_step show_f64 rec l r p h)
    unfolding check_step size dict_assignable_to_schema
    step-Checks (ty (TypeKind.list t) a f) (ty (TypeKind.list u) b g) p h wl wr x m =
        ih t u h wl.1 wr.1 x (omega arith)
    step-Checks (ty (TypeKind.dict t v) a f) (ty (TypeKind.dict u w) b g) p h wl wr x m =
        and_check-Checks h _ (rec v w) (ih t u h wl.1.0 wr.1.0 x.0 (omega arith))
          (λ k. ih v w k wl.1.1 wr.1.1 x.1 (omega arith))
    step-Checks (ty (TypeKind.dict t v) a f) (ty (TypeKind.schema (schema_type i q o c d e z)) b g)
          p h wl wr x m =
        check_index-Checks t v z p h wl.1.0 wl.1.1 x
    step-Checks (ty (TypeKind.union ts) a f) r p h wl wr x m =
        all_check-Checks (λ t. rec t r) (size_list ts) ts
          (all_left r ts (size_list ts) wr x wl.1 (omega arith)) (omega arith) h
    step-Checks l (ty (TypeKind.union ts) b g) p h wl wr x m =
        any_check-Checks (rec l) (size_list ts) ts
          (all_right l ts (size_list ts) wl wr.1 x (omega arith)) (omega arith) h
    step-Checks l r p h wl wr x m = check_assignable-Checks l r h wl wr

  check_type_fuel-Checks :
      (n : ℕ) (l r : Ty) (p : Position) (h : Handler)
      → IsWellFormed l
      → IsWellFormed r
      → HasWellFormedIndexes r
      → size l + size r ≤ n
      → Checks h (check_type_fuel show_f64 n l r p h)
  unfolding check_type_fuel
  check_type_fuel-Checks zero l r p h wl wr x m = absurd (omega (arith, size-pos l))
  check_type_fuel-Checks (suc n) l r p h wl wr x m =
      step-Checks (λ t u. check_type_fuel show_f64 n t u p) n
        (λ t u k. check_type_fuel-Checks n t u p k) l r p h wl wr x m

  -- On well-formed types `check_type` returns, if the index signatures of the schemas in the
  -- expected type are well formed too, and the handler keeps all its diagnostics and gets new ones
  -- at the end only.
  pub check_type-Checks :
      (t expected : Ty) (p : Position) (h : Handler)
      → IsWellFormed t
      → IsWellFormed expected
      → HasWellFormedIndexes expected
      → Checks h (check_type show_f64 t expected p h)
  unfolding check_type
  check_type-Checks t expected p h w v x =
      check_type_fuel-Checks _ t expected p h w v x (omega arith)
