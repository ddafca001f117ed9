-- ===== src/Ty/Unify/Union.antt =====
-- A union and its members under `subsume`.
use kclvm.Prelude.{
  Bool, true, false, ◌≡◌, ◌⊎◌, inl, inr, ◌↔◌, refl, ◌∙◌, Text, Option, some, none, all_m, any_m,
  and_then, or_else, if◌then◌else◌, Bool-cases, arith,
}
use kclvm.Ty.Kind.{Ty, ty, Tys, nil, cons, TypeKind, F64, to_list}
use kclvm.Ty.Flags.{all_tests, is_any, is_none, is_union}
use kclvm.Ty.Into.{union_types}
use kclvm.Ty.Unify.{subsume, subsume_step, subsume_union_lhs, subsume_union_rhs}
use kclvm.Ty.Unify.Fuel.{subsume-fixed_point}
use kclvm.Ty.Unify.Total.{subsume-Returns}
use kclvm.Ty.WellFormed.{IsWellFormed, KindIsWellFormed, TysAreWellFormed, canonical, eq-canonical}

abbrev pub MemTys : Ty → Tys → Type 0
MemTys u nil = ⊥
MemTys u (cons t ts) = (u ≡ t) ⊎ MemTys u ts

abbrev pub AllTys : (Ty → Type 0) → Tys → Type 0
AllTys P nil = Unit
AllTys P (cons t ts) = P t × AllTys P ts

AllTys-all : {P : Ty → Type 0} → ((t : Ty) → P t) → (ts : Tys) → AllTys P ts
AllTys-all h nil = tt
AllTys-all h (cons t ts) = (h t, AllTys-all h ts)

and_then-true : {a b : Option Bool} → and_then a b ≡ some true → (a ≡ some true) × (b ≡ some true)
and_then-true {a = some true} h = (refl, h)
and_then-true {a = some false} h = absurd (ground arith)
and_then-true {a = none} h = absurd (ground arith)

pub all_m-true :
    (p : Ty → Option Bool) (ts : Tys)
    → (all_m p (to_list ts) ≡ some true) ↔ AllTys (λ t. p t ≡ some true) ts
all_m-true p nil = (λ _. tt, λ _. refl)
all_m-true p (cons t ts) = (
  λ h. let (a, b) = and_then-true h in (a, (all_m-true p ts).0 b),
  λ (a, b). rw a ((all_m-true p ts).1 b),
)

union_tests :
    (ts : Tys) (a : Bool)
    → (is_union (canonical (TypeKind.union ts) a) ≡ true)
      × (is_any (canonical (TypeKind.union ts) a) ≡ false)
unfolding all_tests
union_tests ts a = (refl, refl)

-- Neither `None` nor a union.
abbrev is_plain : TypeKind → Bool
is_plain TypeKind.none = false
is_plain (TypeKind.union ts) = false
is_plain _ = true

plain_tests :
    (k : TypeKind) (b : Bool)
    → is_plain k ≡ true
    → (is_none (canonical k b) ≡ false) × (is_union (canonical k b) ≡ false)
unfolding all_tests
plain_tests TypeKind.none b h = absurd (ground arith)
plain_tests (TypeKind.union ts) b h = absurd (ground arith)
plain_tests _ b h = (refl, refl)

module _ (show_f64 : F64 → Text) where
  abbrev pub Below : Ty → Ty → Type 0
  Below l r = subsume show_f64 l r false ≡ some true

  any_m-mem :
      (l u : Ty) (ts : Tys)
      → IsWellFormed l
      → TysAreWellFormed ts
      → MemTys u ts
      → Below l u
      → any_m (λ t. subsume show_f64 l t false) (to_list ts) ≡ some true
  any_m-mem l u nil wl wts m h = absurd m
  any_m-mem l u (cons t ts) wl wts (inl e) h = rw (← e, h) refl
  any_m-mem l u (cons t ts) wl wts (inr m) h =
      let (b, e) = subsume-Returns show_f64 l t false wl wts.0 in
      let ih = any_m-mem l u ts wl wts.1 m h in rw (e, ih) (or_else_true b)
    where
      or_else_true : (b : Bool) → or_else (some b) (some true) ≡ some true
      or_else_true true = refl
      or_else_true false = refl

  Below-any : (l r : Ty) → is_any r ≡ true → Below l r
  Below-any l r h = rw subsume-fixed_point (unfold subsume_step in ground arith)

  pub subsume-union_lhs :
      (ts : Tys) (a : Bool) (r : Ty) (c : Bool)
      → subsume show_f64 (canonical (TypeKind.union ts) a) r c
        ≡ (if is_any r then some true else all_m (λ t. subsume show_f64 t r false) (to_list ts))
  subsume-union_lhs ts a r c =
      subsume-fixed_point show_f64 _ r c
      ∙ unfold subsume_step subsume_union_lhs union_types all_tests in ground arith

  Below-union_rhs :
      (ts : Tys) (a : Bool) (l : Ty)
      → is_none l ≡ false
      → is_union l ≡ false
      → any_m (λ t. subsume show_f64 l t false) (to_list ts) ≡ some true
      → Below l (canonical (TypeKind.union ts) a)
  Below-union_rhs ts a l h2 h3 h =
      subsume-fixed_point show_f64 l _ false
      ∙ unfold subsume_step subsume_union_rhs union_types in ground (arith, union_tests ts a)

  Below-none : (b : Bool) (r : Ty) → Below (canonical TypeKind.none b) r
  Below-none b r =
      subsume-fixed_point show_f64 _ r false ∙ unfold subsume_step all_tests in ground arith

  -- A union is below a type exactly if each of its members is.
  pub union-Below_iff :
      (ts : Tys) (a : Bool) (r : Ty)
      → Below (canonical (TypeKind.union ts) a) r ↔ AllTys (λ t. Below t r) ts
  union-Below_iff ts a r = rw subsume-union_lhs (elim (Bool-cases (is_any r)) [
    | inl h ↦ rw h (λ _. AllTys-all (λ t. Below-any t r h) ts, λ _. refl)
    | inr h ↦ rw h (all_m-true (λ t. subsume show_f64 t r false) ts)
  ])

  mutual
    -- A type below a member of a union is below the union.
    pub Below-union :
        (t u : Ty) (ts : Tys) (a : Bool)
        → IsWellFormed t
        → TysAreWellFormed ts
        → MemTys u ts
        → Below t u
        → Below t (canonical (TypeKind.union ts) a)
    Below-union (ty k b f) u ts a w ws m h =
        let e = eq-canonical k b f w in rw e (Below-union_kind k b u ts a w.1 ws m (rw e at h))

    Below-union_kind :
        (k : TypeKind) (b : Bool) (u : Ty) (ts : Tys) (a : Bool)
        → KindIsWellFormed k
        → TysAreWellFormed ts
        → MemTys u ts
        → Below (canonical k b) u
        → Below (canonical k b) (canonical (TypeKind.union ts) a)
    Below-union_kind (TypeKind.union xs) b u ts a w ws m h =
        (union-Below_iff xs b _).1
          (members-Below-union xs u ts a w ws m ((union-Below_iff xs b u).0 h))
    Below-union_kind TypeKind.none b u ts a w ws m h = Below-none b _
    Below-union_kind k b u ts a w ws m h =
        let (p, q) = plain_tests k b refl in
        Below-union_rhs ts a (canonical k b) p q (any_m-mem (canonical k b) u ts (refl, w) ws m h)

    members-Below-union :
        (xs : Tys) (u : Ty) (ts : Tys) (a : Bool)
        → TysAreWellFormed xs
        → TysAreWellFormed ts
        → MemTys u ts
        → AllTys (λ t. Below t u) xs
        → AllTys (λ t. Below t (canonical (TypeKind.union ts) a)) xs
    members-Below-union nil u ts a w ws m h = tt
    members-Below-union (cons t xs) u ts a w ws m h =
        (Below-union t u ts a w.0 ws m h.0, members-Below-union xs u ts a w.1 ws m h.1)
