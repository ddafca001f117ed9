-- ===== src/Ty/Unify/Fuel.antt =====
-- The fuel of `subsume` leaves no trace: the function satisfies the recursion of the source.
use kclvm.Prelude.{
  ℕ, zero, suc, ◌+◌, ◌-◌, ◌≤◌, Bool, false, ◌≡◌, refl, ◌∙◌, Text, Option, all_m, any_m, arith,
}
use kclvm.Ty.Kind.{Ty, ty, Tys, nil, cons, TypeKind, F64, to_list}
use kclvm.Ty.Into.{union_types, list_item_ty, dict_entry_ty}
use kclvm.Ty.Unify.{
  subsume_fuel, subsume, literal_subsume, subsume_step, subsume_union_lhs, subsume_union_rhs,
  subsume_list, subsume_dict,
}
use kclvm.Ty.Unify.Size.{size-pos, size, size_list}

module _ (literal : Ty → Ty → Bool) (rec rec' : Ty → Ty → Bool → Option Bool) (n : ℕ)
    (ih : (l r : Ty) (c : Bool) → size l + size r ≤ n → rec l r c ≡ rec' l r c) where
  all_m-agree :
      (r : Ty) (ts : Tys)
      → size_list ts + size r ≤ n
      → all_m (λ t. rec t r false) (to_list ts) ≡ all_m (λ t. rec' t r false) (to_list ts)
  unfolding size
  all_m-agree r nil m = refl
  all_m-agree r (cons t ts) m = rw (ih t r false (omega arith), all_m-agree r ts (omega arith)) refl

  any_m-agree :
      (l : Ty) (ts : Tys)
      → size l + size_list ts ≤ n
      → any_m (λ t. rec l t false) (to_list ts) ≡ any_m (λ t. rec' l t false) (to_list ts)
  unfolding size
  any_m-agree l nil m = refl
  any_m-agree l (cons t ts) m = rw (ih l t false (omega arith), any_m-agree l ts (omega arith)) refl

  union_lhs-agree :
      (l r : Ty) → size l + size r ≤ suc n → subsume_union_lhs rec l r ≡ subsume_union_lhs rec' l r
  unfolding subsume_union_lhs union_types size
  union_lhs-agree (ty (TypeKind.union ts) a f) r m = all_m-agree r ts (omega arith)
  union_lhs-agree (ty _ a f) r m = refl

  union_rhs-agree :
      (l r : Ty) → size l + size r ≤ suc n → subsume_union_rhs rec l r ≡ subsume_union_rhs rec' l r
  unfolding subsume_union_rhs union_types size
  union_rhs-agree l (ty (TypeKind.union ts) a f) m = any_m-agree l ts (omega arith)
  union_rhs-agree l (ty _ a f) m = refl

  list-agree :
      (l r : Ty) (c : Bool)
      → size l + size r ≤ suc n
      → subsume_list rec l r c ≡ subsume_list rec' l r c
  unfolding subsume_list list_item_ty size
  list-agree (ty (TypeKind.list t) a f) (ty (TypeKind.list u) b g) c m = ih t u c (omega arith)
  list-agree (ty (TypeKind.list t) a f) (ty _ b g) c m = refl
  list-agree (ty _ a f) r c m = refl

  dict-agree :
      (l r : Ty) (c : Bool)
      → size l + size r ≤ suc n
      → subsume_dict rec l r c ≡ subsume_dict rec' l r c
  unfolding subsume_dict dict_entry_ty size
  dict-agree (ty (TypeKind.dict t v) a f) (ty (TypeKind.dict u w) b g) c m =
      rw (ih t u c (omega arith), ih v w c (omega arith)) refl
  dict-agree (ty (TypeKind.dict t v) a f) (ty _ b g) c m = refl
  dict-agree (ty _ a f) r c m = refl

  step-agree :
      (l r : Ty) (c : Bool)
      → size l + size r ≤ suc n
      → subsume_step literal rec l r c ≡ subsume_step literal rec' l r c
  unfolding subsume_step
  step-agree l r c m =
      rw (union_lhs-agree l r m, union_rhs-agree l r m, list-agree l r c m, dict-agree l r c m) refl

module _ (show_f64 : F64 → Text) where
  fuel-agree :
      (n m : ℕ) (l r : Ty) (c : Bool)
      → size l + size r ≤ n
      → size l + size r ≤ m
      → subsume_fuel show_f64 n l r c ≡ subsume_fuel show_f64 m l r c
  unfolding subsume_fuel
  fuel-agree zero m l r c h k = absurd (omega (arith, size-pos l))
  fuel-agree (suc n) zero l r c h k = absurd (omega (arith, size-pos l))
  fuel-agree (suc n) (suc m) l r c h k =
      step-agree (literal_subsume show_f64) (subsume_fuel show_f64 n) (subsume_fuel show_f64 m)
        (size l + size r - 1) (λ t u b s. fuel-agree n m t u b (omega arith) (omega arith)) l r c
        (omega arith)

  -- `subsume` is a fixed point of its body: it is the recursive function of the source, whatever
  -- the fuel it starts with.
  pub subsume-fixed_point :
      (l r : Ty) (c : Bool)
      → subsume show_f64 l r c ≡ subsume_step (literal_subsume show_f64) (subsume show_f64) l r c
  unfolding subsume
  subsume-fixed_point l r c =
      let big = suc (size l + size r) in
      fuel-agree (size l + size r) big l r c (omega arith) (omega arith)
      ∙ unfold subsume_fuel in
        step-agree (literal_subsume show_f64) (subsume_fuel show_f64 (size l + size r))
          (subsume show_f64) (size l + size r - 1)
          (λ t u b s.
            fuel-agree (size l + size r) (size t + size u) t u b (omega arith) (omega arith))
          l r c (omega (arith, size-pos l))
