-- ===== src/Ty/Unify/Reflexive.antt =====
-- Subtyping is reflexive: every kind of type is below itself.
use kclvm.Prelude.{
  List, [], ◌∷◌, Bool, true, false, ◌≡◌, refl, inl, inr, ◌∙◌, Text, some, arith, text_eq_refl,
  text_eq,
}
use kclvm.Prelude.Int.{ℤ, pos, negsuc}
use kclvm.Ty.Kind.{
  Ty, ty, Tys, nil, cons, TypeKind, F64, SchemaType, schema_type, NumberMultiplierType, ModuleType,
  ModuleKind,
}
use kclvm.Ty.Equal.{f64_eq, int_eq, function_eq, kind_eq, module_eq, module_kind_eq, list_eq}
use kclvm.Ty.Flags.{all_tests}
use kclvm.Ty.Into.{list_item_ty, dict_entry_ty, into_schema_type, into_number_multiplier}
use kclvm.Ty.Unify.{
  subsume, literal_subsume, subsume_step, subsume_list, subsume_dict, subsume_schema,
  subsume_multiplier, multiplier_subsume, is_sub_schema_of, equal,
}
use kclvm.Ty.Unify.Fuel.{subsume-fixed_point}
use kclvm.Ty.Unify.Union.{Below, AllTys, MemTys, Below-union, subsume-union_lhs, all_m-true}
use kclvm.Ty.WellFormed.{IsWellFormed, KindIsWellFormed, TysAreWellFormed, canonical, eq-canonical}

-- No NaN literal, and no function type that differs from itself.
abbrev mutual
  pub IsSelfEqual : Ty → Type 0
  IsSelfEqual (ty k a f) = KindIsSelfEqual k

  pub KindIsSelfEqual : TypeKind → Type 0
  KindIsSelfEqual (TypeKind.float_lit v) = f64_eq v v ≡ true
  KindIsSelfEqual (TypeKind.function g) = function_eq g g ≡ true
  KindIsSelfEqual (TypeKind.list t) = IsSelfEqual t
  KindIsSelfEqual (TypeKind.dict k v) = IsSelfEqual k × IsSelfEqual v
  KindIsSelfEqual (TypeKind.union ts) = TysAreSelfEqual ts
  KindIsSelfEqual _ = Unit

  pub TysAreSelfEqual : Tys → Type 0
  TysAreSelfEqual nil = Unit
  TysAreSelfEqual (cons t ts) = IsSelfEqual t × TysAreSelfEqual ts

pub int_eq_refl : (i : ℤ) → int_eq i i ≡ true
unfolding int_eq
int_eq_refl (pos n) = ground arith
int_eq_refl (negsuc n) = ground arith

list_eq_refl : (xs : List Text) → list_eq text_eq xs xs ≡ true
list_eq_refl [] = refl
list_eq_refl (x ∷ xs) = rw (text_eq_refl, list_eq_refl xs) refl

module_kind_eq_refl : (k : ModuleKind) → module_kind_eq k k ≡ true
module_kind_eq_refl ModuleKind.user = refl
module_kind_eq_refl ModuleKind.system = refl
module_kind_eq_refl ModuleKind.plugin = refl

module_eq_refl : (m : ModuleType) → module_eq m m ≡ true
module_eq_refl m = rw (text_eq_refl, list_eq_refl m.imported, module_kind_eq_refl m.kind) refl

is_sub_schema_of_refl : (s : SchemaType) → is_sub_schema_of s s ≡ true
unfolding is_sub_schema_of
is_sub_schema_of_refl (schema_type i b p m a f x) = rw text_eq_refl refl

multiplier_subsume_refl : (m : NumberMultiplierType) → multiplier_subsume m m ≡ true
unfolding multiplier_subsume
multiplier_subsume_refl m = ground (arith, int_eq_refl m.raw_value, text_eq_refl m.binary_suffix)

module _ (show_f64 : F64 → Text) where
  -- The kinds with no parts to recur on.
  abbrev is_leaf : TypeKind → Bool
  is_leaf (TypeKind.list t) = false
  is_leaf (TypeKind.dict t u) = false
  is_leaf (TypeKind.union ts) = false
  is_leaf _ = true

  leaf_refl :
      (k : TypeKind) (a b c : Bool)
      → is_leaf k ≡ true
      → KindIsSelfEqual k
      → subsume_step (literal_subsume show_f64) (subsume show_f64) (canonical k a) (canonical k b) c
        ≡ some true
  unfolding subsume_step all_tests equal kind_eq literal_subsume subsume_schema into_schema_type
      subsume_multiplier into_number_multiplier
  leaf_refl (TypeKind.list t) a b c l s = absurd (ground arith)
  leaf_refl (TypeKind.dict t u) a b c l s = absurd (ground arith)
  leaf_refl (TypeKind.union ts) a b c l s = absurd (ground arith)
  leaf_refl (TypeKind.bool_lit true) a b c l s = ground arith
  leaf_refl (TypeKind.bool_lit false) a b c l s = ground arith
  leaf_refl (TypeKind.int_lit v) a b c l s = ground (arith, int_eq_refl v)
  leaf_refl (TypeKind.str_lit v) a b c l s = ground (arith, text_eq_refl v)
  leaf_refl (TypeKind.schema v) a b c l s = ground (arith, is_sub_schema_of_refl v)
  leaf_refl (TypeKind.number_multiplier v) a b c l s = ground (arith, multiplier_subsume_refl v)
  leaf_refl (TypeKind.module_of v) a b c l s = ground (arith, module_eq_refl v)
  leaf_refl (TypeKind.named v) a b c l s = ground (arith, text_eq_refl v)
  leaf_refl _ a b c l s = ground arith

  list_refl :
      (t : Ty) (a b c : Bool)
      → subsume show_f64 t t c ≡ some true
      → subsume_step
          (literal_subsume show_f64)
          (subsume show_f64)
          (canonical (TypeKind.list t) a)
          (canonical (TypeKind.list t) b)
          c
        ≡ some true
  unfolding subsume_step all_tests subsume_list list_item_ty
  list_refl t a b c h = ground arith

  dict_refl :
      (t u : Ty) (a b c : Bool)
      → subsume show_f64 t t c ≡ some true
      → subsume show_f64 u u c ≡ some true
      → subsume_step
          (literal_subsume show_f64)
          (subsume show_f64)
          (canonical (TypeKind.dict t u) a)
          (canonical (TypeKind.dict t u) b)
          c
        ≡ some true
  unfolding subsume_step all_tests subsume_dict dict_entry_ty
  dict_refl t u a b c h k = ground arith

  union_refl :
      (ts : Tys) (a b c : Bool)
      → AllTys (λ t. Below show_f64 t (canonical (TypeKind.union ts) b)) ts
      → subsume show_f64 (canonical (TypeKind.union ts) a) (canonical (TypeKind.union ts) b) c
        ≡ some true
  union_refl ts a b c h =
      let u = canonical (TypeKind.union ts) b in
      rw (subsume-union_lhs show_f64)
        (ground (arith, (all_m-true (λ t. subsume show_f64 t u false) ts).1 h))

  mutual
    subsume_refl_ty :
        (t : Ty) (c : Bool) → IsWellFormed t → IsSelfEqual t → subsume show_f64 t t c ≡ some true
    subsume_refl_ty (ty k a f) c w s = rw (eq-canonical k a f w) (subsume_refl_kind k a a c w.1 s)

    subsume_refl_kind :
        (k : TypeKind) (a b c : Bool)
        → KindIsWellFormed k
        → KindIsSelfEqual k
        → subsume show_f64 (canonical k a) (canonical k b) c ≡ some true
    subsume_refl_kind (TypeKind.list t) a b c w s =
        subsume-fixed_point show_f64 _ _ c ∙ list_refl t a b c (subsume_refl_ty t c w s)
    subsume_refl_kind (TypeKind.dict t u) a b c w s =
        subsume-fixed_point show_f64 _ _ c
        ∙ dict_refl t u a b c (subsume_refl_ty t c w.0 s.0) (subsume_refl_ty u c w.1 s.1)
    subsume_refl_kind (TypeKind.union ts) a b c w s =
        union_refl ts a b c (members_refl ts ts b w w s (λ u m. m))
    subsume_refl_kind k a b c w s = subsume-fixed_point show_f64 _ _ c ∙ leaf_refl k a b c refl s

    members_refl :
        (xs ts : Tys) (a : Bool)
        → TysAreWellFormed xs
        → TysAreWellFormed ts
        → TysAreSelfEqual xs
        → ((u : Ty) → MemTys u xs → MemTys u ts)
        → AllTys (λ t. Below show_f64 t (canonical (TypeKind.union ts) a)) xs
    members_refl nil ts a w ws s m = tt
    members_refl (cons t xs) ts a w ws s m = (
      Below-union show_f64 t t ts a w.0 ws (m t (inl refl)) (subsume_refl_ty t false w.0 s.0),
      members_refl xs ts a w.1 ws s.1 (λ u k. m u (inr k)),
    )

  -- Every well-formed type is below itself, whether or not `any` is accepted on the left, if it
  -- holds no NaN literal and no function type that differs from itself.
  pub subsume_refl :
      (t : Ty) (c : Bool) → IsWellFormed t → IsSelfEqual t → subsume show_f64 t t c ≡ some true
  subsume_refl t c w s = subsume_refl_ty t c w s

  -- Each member of a union is below the union, if the member is well formed and holds no NaN
  -- literal and no function type that differs from itself, and the members of the union are well
  -- formed.
  pub member-Below-union :
      (u : Ty) (ts : Tys) (a : Bool)
      → IsWellFormed u
      → IsSelfEqual u
      → TysAreWellFormed ts
      → MemTys u ts
      → Below show_f64 u (canonical (TypeKind.union ts) a)
  member-Below-union u ts a w s ws m =
      Below-union show_f64 u u ts a w ws m (subsume_refl u false w s)

  -- A well-formed type and its alias are below each other, if the type holds no NaN literal and no
  -- function type that differs from itself.
  pub subsume_alias :
      (k : TypeKind) (a b c : Bool)
      → KindIsWellFormed k
      → KindIsSelfEqual k
      → subsume show_f64 (canonical k a) (canonical k b) c ≡ some true
  subsume_alias k a b c w s = subsume_refl_kind k a b c w s
