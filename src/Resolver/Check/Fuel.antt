-- ===== src/Resolver/Check/Fuel.antt =====
-- The fuel of `check_type` in kclvm/sema/src/resolver/ty.rs leaves no trace: the function satisfies the
-- recursion of the source.
use kclvm.Prelude.{
  ℕ, zero, suc, ◌+◌, ◌-◌, ◌≤◌, true, false, ◌≡◌, refl, ◌∙◌, none, some, Text, arith,
}
use kclvm.Handler.{Handler}
use kclvm.Ty.Kind.{Ty, ty, Tys, nil, cons, TypeKind, F64, Position}
use kclvm.Ty.Unify.Size.{size-pos, size, size_list}
use kclvm.Resolver.Check.{
  Checked, and_check, or_check, all_check, any_check, check_step, check_type_fuel, check_type,
}

and_check-agree :
    (o : Checked) (f g : Handler → Checked)
    → ((h : Handler) → f h ≡ g h)
    → and_check o f ≡ and_check o g
unfolding and_check
and_check-agree none f g e = refl
and_check-agree (some (true, h)) f g e = e h
and_check-agree (some (false, h)) f g e = refl

or_check-agree :
    (o : Checked) (f g : Handler → Checked)
    → ((h : Handler) → f h ≡ g h)
    → or_check o f ≡ or_check o g
unfolding or_check
or_check-agree none f g e = refl
or_check-agree (some (true, h)) f g e = refl
or_check-agree (some (false, h)) f g e = e h

module _ (f g : Ty → Handler → Checked) (n : ℕ)
    (agree : (t : Ty) (h : Handler) → size t ≤ n → f t h ≡ g t h) where
  all_check-agree :
      (ts : Tys) (h : Handler) → size_list ts ≤ n → all_check f ts h ≡ all_check g ts h
  unfolding all_check size
  all_check-agree nil h m = refl
  all_check-agree (cons t ts) h m = rw (agree t h (omega arith)) (
      and_check-agree (g t h) (all_check f ts) (all_check g ts)
        (λ k. all_check-agree ts k (omega arith)))

  any_check-agree :
      (ts : Tys) (h : Handler) → size_list ts ≤ n → any_check f ts h ≡ any_check g ts h
  unfolding any_check size
  any_check-agree nil h m = refl
  any_check-agree (cons t ts) h m = rw (agree t h (omega arith)) (
      or_check-agree (g t h) (any_check f ts) (any_check g ts)
        (λ k. any_check-agree ts k (omega arith)))

module _ (show_f64 : F64 → Text) where
  module _ (rec rec' : Ty → Ty → Handler → Checked) (n : ℕ)
      (ih : (l r : Ty) (h : Handler) → size l + size r ≤ n → rec l r h ≡ rec' l r h) where
    step-agree :
        (l r : Ty) (p : Position) (h : Handler)
        → size l + size r ≤ suc n
        → check_step show_f64 rec l r p h ≡ check_step show_f64 rec' l r p h
    unfolding check_step size
    step-agree (ty (TypeKind.list t) a f) (ty (TypeKind.list u) b g) p h m = ih t u h (omega arith)
    step-agree (ty (TypeKind.dict t v) a f) (ty (TypeKind.dict u w) b g) p h m =
        rw (ih t u h (omega arith))
          (and_check-agree (rec' t u h) (rec v w) (rec' v w) (λ k. ih v w k (omega arith)))
    step-agree (ty (TypeKind.dict t v) a f) (ty (TypeKind.schema s) b g) p h m = refl
    step-agree (ty (TypeKind.union ts) a f) r p h m =
        all_check-agree (λ t. rec t r) (λ t. rec' t r) (size_list ts)
          (λ t k s. ih t r k (omega arith)) ts h (omega arith)
    step-agree l (ty (TypeKind.union ts) b g) p h m =
        any_check-agree (rec l) (rec' l) (size_list ts) (λ t k s. ih l t k (omega arith)) ts h
          (omega arith)
    step-agree l r p h m = refl

  fuel-agree :
      (n m : ℕ) (l r : Ty) (p : Position) (h : Handler)
      → size l + size r ≤ n
      → size l + size r ≤ m
      → check_type_fuel show_f64 n l r p h ≡ check_type_fuel show_f64 m l r p h
  unfolding check_type_fuel
  fuel-agree zero m l r p h s t = absurd (omega (arith, size-pos l))
  fuel-agree (suc n) zero l r p h s t = absurd (omega (arith, size-pos l))
  fuel-agree (suc n) (suc m) l r p h s t =
      step-agree (λ u v. check_type_fuel show_f64 n u v p) (λ u v. check_type_fuel show_f64 m u v p)
        (size l + size r - 1) (λ u v k d. fuel-agree n m u v p k (omega arith) (omega arith)) l r p
        h (omega arith)

  -- `check_type` is a fixed point of its body: it is the recursive function of the source,
  -- whatever the fuel it starts with.
  pub check_type-fixed_point :
      (t expected : Ty) (p : Position) (h : Handler)
      → check_type show_f64 t expected p h
        ≡ check_step show_f64 (λ l r. check_type show_f64 l r p) t expected p h
  unfolding check_type
  check_type-fixed_point l r p h =
      let big = suc (size l + size r) in
      fuel-agree (size l + size r) big l r p h (omega arith) (omega arith)
      ∙ unfold check_type_fuel in
        step-agree (λ u v. check_type_fuel show_f64 (size l + size r) u v p)
          (λ u v. check_type show_f64 u v p) (size l + size r - 1)
          (λ u v k d.
            fuel-agree (size l + size r) (size u + size v) u v p k (omega arith) (omega arith))
          l r p h (omega (arith, size-pos l))
