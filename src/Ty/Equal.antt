-- ===== src/Ty/Equal.antt =====
-- The `PartialEq` that `Type`, `TypeKind` and the types inside them derive in
-- kclvm/sema/src/ty/mod.rs: field by field; floats by IEEE 754; an `IndexMap` in any order.
use kclvm.Prelude.{
  ℕ, suc, ◌*◌, ◌%◌, ◌^◌, Bool, true, false, not, ◌&&◌, ◌||◌, List, [], ◌∷◌, Option, none, some,
  Text, text_eq, ◌==◌, ltb, if◌then◌else◌,
}
use kclvm.Prelude.Int.{ℤ, pos, negsuc}
use kclvm.Ty.Kind.{
  Ty, ty, Tys, nil, cons, TypeKind, F64, Position, ModuleKind, ModuleType, NumberMultiplierType,
  DecoratorTarget, Decorator, SchemaInfo, AttrInfo, IndexInfo, FunctionInfo, OptTy, no_ty, some_ty,
  SchemaType, schema_type, OptSchema, no_schema, some_schema, Schemas, no_mixins, mixin, Attrs,
  no_attrs, attr, SchemaAttr, schema_attr, OptIndex, no_index, some_index, FunctionType,
  function_type, Params, no_params, param,
}

-- `==` on two doubles: false if one is a NaN; the two zeros are equal.
abbrev is_nan : F64 → Bool
is_nan b = ltb (2047 * 2 ^ 52) (b % 2 ^ 63)

abbrev is_zero : F64 → Bool
is_zero b = (b % 2 ^ 63) == 0

unfoldable pub f64_eq : F64 → F64 → Bool
f64_eq a b = not (is_nan a) && not (is_nan b) && (a == b || (is_zero a && is_zero b))

abbrev pub bool_eq : Bool → Bool → Bool
bool_eq true b = b
bool_eq false b = not b

unfoldable pub int_eq : ℤ → ℤ → Bool
int_eq (pos a) (pos b) = a == b
int_eq (negsuc a) (negsuc b) = a == b
int_eq _ _ = false

module _ {ℓ} {A : Type ℓ} (eq : A → A → Bool) where
  abbrev pub option_eq : Option A → Option A → Bool
  option_eq none none = true
  option_eq (some a) (some b) = eq a b
  option_eq _ _ = false

  abbrev pub list_eq : List A → List A → Bool
  list_eq [] [] = true
  list_eq (a ∷ as_) (b ∷ bs) = eq a b && list_eq as_ bs
  list_eq _ _ = false

abbrev pub position_eq : Position → Position → Bool
position_eq p q =
    text_eq p.filename q.filename && p.line == q.line && option_eq ◌==◌ p.column q.column

abbrev pub module_kind_eq : ModuleKind → ModuleKind → Bool
module_kind_eq ModuleKind.user ModuleKind.user = true
module_kind_eq ModuleKind.system ModuleKind.system = true
module_kind_eq ModuleKind.plugin ModuleKind.plugin = true
module_kind_eq _ _ = false

abbrev pub module_eq : ModuleType → ModuleType → Bool
module_eq m n =
    text_eq m.pkgpath n.pkgpath
    && list_eq text_eq m.imported n.imported
    && module_kind_eq m.kind n.kind

abbrev multiplier_eq : NumberMultiplierType → NumberMultiplierType → Bool
multiplier_eq m n =
    f64_eq m.value n.value
    && int_eq m.raw_value n.raw_value
    && text_eq m.binary_suffix n.binary_suffix
    && bool_eq m.is_literal n.is_literal

abbrev target_eq : DecoratorTarget → DecoratorTarget → Bool
target_eq DecoratorTarget.schema_target DecoratorTarget.schema_target = true
target_eq DecoratorTarget.attribute_target DecoratorTarget.attribute_target = true
target_eq _ _ = false

abbrev decorator_eq : Decorator → Decorator → Bool
decorator_eq d e = target_eq d.target e.target && text_eq d.name e.name && text_eq d.key e.key

abbrev schema_info_eq : SchemaInfo → SchemaInfo → Bool
schema_info_eq s t =
    text_eq s.name t.name
    && text_eq s.pkgpath t.pkgpath
    && text_eq s.filename t.filename
    && text_eq s.doc t.doc
    && bool_eq s.is_instance t.is_instance
    && bool_eq s.is_mixin t.is_mixin
    && bool_eq s.is_protocol t.is_protocol
    && bool_eq s.is_rule t.is_rule
    && list_eq decorator_eq s.decorators t.decorators

abbrev attr_info_eq : AttrInfo → AttrInfo → Bool
attr_info_eq a b =
    bool_eq a.is_optional b.is_optional
    && bool_eq a.has_default b.has_default
    && position_eq a.pos b.pos
    && option_eq text_eq a.doc b.doc

abbrev index_info_eq : IndexInfo → IndexInfo → Bool
index_info_eq a b = option_eq text_eq a.key_name b.key_name && bool_eq a.any_other b.any_other

abbrev function_info_eq : FunctionInfo → FunctionInfo → Bool
function_info_eq f g =
    text_eq f.doc g.doc
    && bool_eq f.is_variadic g.is_variadic
    && option_eq ◌==◌ f.kw_only_index g.kw_only_index

-- `IndexMap::get` and `IndexMap::len`.
abbrev pub get_attr : Text → Attrs → Option SchemaAttr
get_attr k no_attrs = none
get_attr k (attr j a rest) = if text_eq j k then some a else get_attr k rest

abbrev count_attrs : Attrs → ℕ
count_attrs no_attrs = 0
count_attrs (attr j a rest) = suc (count_attrs rest)

unfoldable mutual
  pub ty_eq : Ty → Ty → Bool
  ty_eq (ty k a f) (ty j b g) = kind_eq k j && bool_eq a b && f == g

  pub kind_eq : TypeKind → TypeKind → Bool
  kind_eq TypeKind.none TypeKind.none = true
  kind_eq TypeKind.any TypeKind.any = true
  kind_eq TypeKind.bool TypeKind.bool = true
  kind_eq (TypeKind.bool_lit a) (TypeKind.bool_lit b) = bool_eq a b
  kind_eq TypeKind.int TypeKind.int = true
  kind_eq (TypeKind.int_lit a) (TypeKind.int_lit b) = int_eq a b
  kind_eq TypeKind.float TypeKind.float = true
  kind_eq (TypeKind.float_lit a) (TypeKind.float_lit b) = f64_eq a b
  kind_eq TypeKind.str TypeKind.str = true
  kind_eq (TypeKind.str_lit a) (TypeKind.str_lit b) = text_eq a b
  kind_eq (TypeKind.list a) (TypeKind.list b) = ty_eq a b
  kind_eq (TypeKind.dict a b) (TypeKind.dict c d) = ty_eq a c && ty_eq b d
  kind_eq (TypeKind.union a) (TypeKind.union b) = tys_eq a b
  kind_eq (TypeKind.schema a) (TypeKind.schema b) = schema_eq a b
  kind_eq (TypeKind.number_multiplier a) (TypeKind.number_multiplier b) = multiplier_eq a b
  kind_eq (TypeKind.function a) (TypeKind.function b) = function_eq a b
  kind_eq TypeKind.void TypeKind.void = true
  kind_eq (TypeKind.module_of a) (TypeKind.module_of b) = module_eq a b
  kind_eq (TypeKind.named a) (TypeKind.named b) = text_eq a b
  kind_eq _ _ = false

  pub tys_eq : Tys → Tys → Bool
  tys_eq nil nil = true
  tys_eq (cons a as_) (cons b bs) = ty_eq a b && tys_eq as_ bs
  tys_eq _ _ = false

  pub opt_ty_eq : OptTy → OptTy → Bool
  opt_ty_eq no_ty no_ty = true
  opt_ty_eq (some_ty a) (some_ty b) = ty_eq a b
  opt_ty_eq _ _ = false

  pub schema_eq : SchemaType → SchemaType → Bool
  schema_eq (schema_type i b p m a f x) (schema_type j c q n d g y) =
      schema_info_eq i j
      && opt_schema_eq b c
      && opt_schema_eq p q
      && schemas_eq m n
      && (count_attrs a == count_attrs d && attrs_in a d)
      && function_eq f g
      && index_eq x y

  pub opt_schema_eq : OptSchema → OptSchema → Bool
  opt_schema_eq no_schema no_schema = true
  opt_schema_eq (some_schema s) (some_schema t) = schema_eq s t
  opt_schema_eq _ _ = false

  pub schemas_eq : Schemas → Schemas → Bool
  schemas_eq no_mixins no_mixins = true
  schemas_eq (mixin s ss) (mixin t ts) = schema_eq s t && schemas_eq ss ts
  schemas_eq _ _ = false

  -- Each entry of the first map is in the second.
  pub attrs_in : Attrs → Attrs → Bool
  attrs_in no_attrs bs = true
  attrs_in (attr k a rest) bs =
      elim (get_attr k bs) [ none ↦ false | some b ↦ attr_eq a b ] && attrs_in rest bs

  pub attr_eq : SchemaAttr → SchemaAttr → Bool
  attr_eq (schema_attr i t) (schema_attr j u) = attr_info_eq i j && ty_eq t u

  pub index_eq : OptIndex → OptIndex → Bool
  index_eq no_index no_index = true
  index_eq (some_index i k v) (some_index j l w) = index_info_eq i j && ty_eq k l && ty_eq v w
  index_eq _ _ = false

  pub function_eq : FunctionType → FunctionType → Bool
  function_eq (function_type i ps s r) (function_type j qs t u) =
      function_info_eq i j && params_eq ps qs && opt_ty_eq s t && ty_eq r u

  pub params_eq : Params → Params → Bool
  params_eq no_params no_params = true
  params_eq (param n t d ps) (param m u e qs) =
      text_eq n m && ty_eq t u && bool_eq d e && params_eq ps qs
  params_eq _ _ = false

-- `types.contains(&ty)`.
unfoldable pub contains_ty : List Ty → Ty → Bool
contains_ty [] t = false
contains_ty (u ∷ us) t = ty_eq u t || contains_ty us t
