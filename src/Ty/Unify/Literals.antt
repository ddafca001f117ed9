-- ===== src/Ty/Unify/Literals.antt =====
-- Literal types under `subsume`: below the type of a variable that holds them, and two places where
-- the test on printed names or on flags accepts more than that.
use kclvm.Prelude.{
  Bool, true, ◌≡◌, refl, ◌∙◌, Text, ◌++◌, codes, some, arith, contains, ap, [], contains-append,
}
use kclvm.Prelude.Int.{ℤ}
use mathlib.Core.List.{append_assoc}
use kclvm.Ty.Kind.{Ty, ty, TypeKind, F64}
use kclvm.Ty.Build.{
  any_ty, bool_ty, int_ty, float_ty, str_ty, list, dict, int_lit, float_lit, str_lit,
}
use kclvm.Ty.Equal.{f64_eq, kind_eq}
use kclvm.Ty.Flags.{all_tests}
use kclvm.Ty.Into.{show_bool, show_int, ty_str, list_item_ty, dict_entry_ty}
use kclvm.Ty.Context.{infer_to_variable_type}
use kclvm.Ty.Unify.{subsume, literal_subsume, subsume_step, subsume_list, subsume_dict}
use kclvm.Ty.Unify.Fuel.{subsume-fixed_point}
use kclvm.Ty.Unify.Reflexive.{IsSelfEqual, KindIsSelfEqual, subsume_refl}
use kclvm.Ty.WellFormed.{IsWellFormed, KindIsWellFormed, canonical, eq-canonical}

-- `bool`, `int`, `float` and `str`.
abbrev pub IsPrimitiveKind : TypeKind → Type 0
IsPrimitiveKind TypeKind.bool = Unit
IsPrimitiveKind TypeKind.int = Unit
IsPrimitiveKind TypeKind.float = Unit
IsPrimitiveKind TypeKind.str = Unit
IsPrimitiveKind _ = ⊥

abbrev mutual
  -- No union in the type or in what it is a list or a dictionary of.
  pub IsUnionFree : Ty → Type 0
  IsUnionFree (ty k a f) = KindIsUnionFree k

  pub KindIsUnionFree : TypeKind → Type 0
  KindIsUnionFree (TypeKind.union ts) = ⊥
  KindIsUnionFree (TypeKind.list t) = IsUnionFree t
  KindIsUnionFree (TypeKind.dict k v) = IsUnionFree k × IsUnionFree v
  KindIsUnionFree _ = Unit

contains-infix : (p a t b q : Text) → contains (p ++ ((a ++ t ++ b) ++ q)) t ≡ true
contains-infix p a t b q =
    let e : p ++ ((a ++ t ++ b) ++ q) ≡ p ++ a ++ t ++ (b ++ q) = simp append_assoc in
    rw e (contains-append (p ++ a) t (b ++ q))

module _ (show_f64 : F64 → Text) where
  name_in_str_lit :
      (k : TypeKind) (x c : Bool) (a b : Text)
      → IsPrimitiveKind k
      → subsume_step
          (literal_subsume show_f64)
          (subsume show_f64)
          (str_lit (a ++ ty_str show_f64 (canonical k x) ++ b))
          (canonical k x)
          c
        ≡ some (
            contains
              (ty_str show_f64 (str_lit (a ++ ty_str show_f64 (canonical k x) ++ b)))
              (ty_str show_f64 (canonical k x)))
  unfolding subsume_step all_tests literal_subsume
  name_in_str_lit TypeKind.bool x c a b h = ground arith
  name_in_str_lit TypeKind.int x c a b h = ground arith
  name_in_str_lit TypeKind.float x c a b h = ground arith
  name_in_str_lit TypeKind.str x c a b h = ground arith
  name_in_str_lit _ x c a b h = absurd h

  contains_name : (a t b : Text) → contains (ty_str show_f64 (str_lit (a ++ t ++ b))) t ≡ true
  unfolding ty_str
  contains_name a t b = contains-infix (codes "str(") a t b (codes ")")

  -- Whatever stands before and after it, a string literal that holds the name of a primitive type
  -- is accepted where that type is expected: `"print"` is below `int`.
  pub str_lit-below-primitive :
      (k : TypeKind) (x c : Bool) (a b : Text)
      → IsPrimitiveKind k
      → subsume show_f64 (str_lit (a ++ ty_str show_f64 (canonical k x) ++ b)) (canonical k x) c
        ≡ some true
  str_lit-below-primitive k x c a b h =
      subsume-fixed_point show_f64 _ _ c
      ∙ name_in_str_lit k x c a b h
      ∙ ap some (contains_name a (ty_str show_f64 (canonical k x)) b)

  -- Each int literal type is below each float literal type, of whatever value, while of two float
  -- literal types one is below the other exactly if the values are equal.
  pub int_lit-below-float_lit :
      (n : ℤ) (f g : F64) (c : Bool)
      → (subsume show_f64 (int_lit n) (float_lit f) c ≡ some true)
        × (subsume show_f64 (float_lit g) (float_lit f) c ≡ some (f64_eq g f))
  int_lit-below-float_lit n f g c = (
    subsume-fixed_point show_f64 _ _ c ∙ unfold subsume_step all_tests in ground arith,
    subsume-fixed_point show_f64 _ _ c
        ∙ unfold subsume_step all_tests literal_subsume kind_eq in ground arith,
  )

  -- The type of a variable that holds a value of the type is above the type.
  abbrev Widens : Ty → Bool → Type 0
  Widens t c =
      (v : Ty) × (infer_to_variable_type show_f64 t ≡ some v) × (subsume show_f64 t v c ≡ some true)

  step-bool :
      (v a c : Bool)
      → subsume_step
          (literal_subsume show_f64)
          (subsume show_f64)
          (canonical (TypeKind.bool_lit v) a)
          bool_ty
          c
        ≡ some true
  unfolding subsume_step all_tests literal_subsume ty_str
  step-bool v a c =
      ground (arith, contains-append [] (codes "bool") (codes "(" ++ (show_bool v ++ codes ")")))

  step-int :
      (v : ℤ) (a c : Bool)
      → subsume_step
          (literal_subsume show_f64)
          (subsume show_f64)
          (canonical (TypeKind.int_lit v) a)
          int_ty
          c
        ≡ some true
  unfolding subsume_step all_tests literal_subsume ty_str
  step-int v a c =
      ground (arith, contains-append [] (codes "int") (codes "(" ++ (show_int v ++ codes ")")))

  step-str :
      (v : Text) (a c : Bool)
      → subsume_step
          (literal_subsume show_f64)
          (subsume show_f64)
          (canonical (TypeKind.str_lit v) a)
          str_ty
          c
        ≡ some true
  unfolding subsume_step all_tests literal_subsume ty_str
  step-str v a c = ground (arith, contains-append [] (codes "str") (codes "(" ++ (v ++ codes ")")))

  step-float :
      (v : F64) (a c : Bool)
      → subsume_step
          (literal_subsume show_f64)
          (subsume show_f64)
          (canonical (TypeKind.float_lit v) a)
          float_ty
          c
        ≡ some true
  unfolding subsume_step all_tests literal_subsume
  step-float v a c = ground arith

  step-any :
      (t : Ty) (c : Bool)
      → subsume_step (literal_subsume show_f64) (subsume show_f64) t any_ty c ≡ some true
  unfolding subsume_step all_tests
  step-any t c = ground arith

  step-list :
      (t v : Ty) (a c : Bool)
      → subsume show_f64 t v c ≡ some true
      → subsume_step
          (literal_subsume show_f64)
          (subsume show_f64)
          (canonical (TypeKind.list t) a)
          (list v)
          c
        ≡ some true
  unfolding subsume_step all_tests subsume_list list_item_ty
  step-list t v a c h = ground arith

  step-dict :
      (t v u w : Ty) (a c : Bool)
      → subsume show_f64 t v c ≡ some true
      → subsume show_f64 u w c ≡ some true
      → subsume_step
          (literal_subsume show_f64)
          (subsume show_f64)
          (canonical (TypeKind.dict t u) a)
          (dict v w)
          c
        ≡ some true
  unfolding subsume_step all_tests subsume_dict dict_entry_ty
  step-dict t v u w a c h k = ground arith

  mutual
    unfolding infer_to_variable_type

    Widens-ty : (t : Ty) (c : Bool) → IsWellFormed t → IsSelfEqual t → IsUnionFree t → Widens t c
    Widens-ty (ty k a f) c w s u = let e = eq-canonical k a f w in rw e (Widens-kind k a c w.1 s u)

    Widens-kind :
        (k : TypeKind) (a c : Bool)
        → KindIsWellFormed k
        → KindIsSelfEqual k
        → KindIsUnionFree k
        → Widens (canonical k a) c
    Widens-kind TypeKind.none a c w s u =
        (any_ty, refl, subsume-fixed_point show_f64 _ _ c ∙ step-any _ c)
    Widens-kind (TypeKind.bool_lit v) a c w s u =
        (bool_ty, refl, subsume-fixed_point show_f64 _ _ c ∙ step-bool v a c)
    Widens-kind (TypeKind.int_lit v) a c w s u =
        (int_ty, refl, subsume-fixed_point show_f64 _ _ c ∙ step-int v a c)
    Widens-kind (TypeKind.float_lit v) a c w s u =
        (float_ty, refl, subsume-fixed_point show_f64 _ _ c ∙ step-float v a c)
    Widens-kind (TypeKind.str_lit v) a c w s u =
        (str_ty, refl, subsume-fixed_point show_f64 _ _ c ∙ step-str v a c)
    Widens-kind (TypeKind.list t) a c w s u =
        let (v, e, h) = Widens-ty t c w s u in
        (list v, rw e refl, subsume-fixed_point show_f64 _ _ c ∙ step-list t v a c h)
    Widens-kind (TypeKind.dict t x) a c w s u =
        let (v, e, h) = Widens-ty t c w.0 s.0 u.0 in
        let (y, d, k) = Widens-ty x c w.1 s.1 u.1 in
        (dict v y, rw (e, d) refl, subsume-fixed_point show_f64 _ _ c ∙ step-dict t v x y a c h k)
    Widens-kind (TypeKind.union ts) a c w s u = absurd u
    Widens-kind k a c w s u =
        (canonical k a, refl, subsume_refl show_f64 (canonical k a) c (refl, w) s)

  -- On a well-formed type without unions, NaN literals and function types that differ from
  -- themselves, `infer_to_variable_type` returns a type, and the type that it returns is above the
  -- type that it is given.
  pub infer_to_variable_type-above :
      (t : Ty) (c : Bool)
      → IsWellFormed t
      → IsSelfEqual t
      → IsUnionFree t
      → (v : Ty) × (infer_to_variable_type show_f64 t ≡ some v)
        × (subsume show_f64 t v c ≡ some true)
  infer_to_variable_type-above t c w s u = Widens-ty t c w s u
