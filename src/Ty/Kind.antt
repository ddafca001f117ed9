-- ===== src/Ty/Kind.antt =====
-- kclvm/sema/src/ty/mod.rs: the type kinds and what they hold. `Rc` and `Box` leave no trace, since
-- a type is never changed once it is shared. An `f64` is its bit pattern, an `i64` an integer.
use kclvm.Prelude.{ℕ, Bool, List, Option, Text}
use kclvm.Prelude.Int.{ℤ}

-- The 64 bits of an IEEE 754 double.
abbrev pub F64 : Type 0
F64 = ℕ

-- kclvm/error/src/diagnostic.rs: a source position.
pub record Position : Type 0 where
  pub filename : Text
  pub line : ℕ
  pub column : Option ℕ

pub data ModuleKind : Type 0 where
  user system plugin : ModuleKind

pub record ModuleType : Type 0 where
  pub pkgpath : Text
  pub imported : List Text
  pub kind : ModuleKind

pub record NumberMultiplierType : Type 0 where
  pub value : F64
  pub raw_value : ℤ
  pub binary_suffix : Text
  pub is_literal : Bool

pub data DecoratorTarget : Type 0 where
  schema_target attribute_target : DecoratorTarget

pub record Decorator : Type 0 where
  pub target : DecoratorTarget
  pub name : Text
  pub key : Text

-- The fields of a schema type, an attribute and an index signature that hold no type.
pub record SchemaInfo : Type 0 where
  pub name : Text
  pub pkgpath : Text
  pub filename : Text
  pub doc : Text
  pub is_instance : Bool
  pub is_mixin : Bool
  pub is_protocol : Bool
  pub is_rule : Bool
  pub decorators : List Decorator

pub record AttrInfo : Type 0 where
  pub is_optional : Bool
  pub has_default : Bool
  pub pos : Position
  pub doc : Option Text

pub record IndexInfo : Type 0 where
  pub key_name : Option Text
  pub any_other : Bool

pub record FunctionInfo : Type 0 where
  pub doc : Text
  pub is_variadic : Bool
  pub kw_only_index : Option ℕ

mutual
  -- The struct `Type`: its kind, whether it is an alias, and the cached flags.
  pub data Ty : Type 0 where
    ty : TypeKind → Bool → ℕ → Ty

  pub data TypeKind : Type 0 where
    none : TypeKind
    any : TypeKind
    bool : TypeKind
    bool_lit : Bool → TypeKind
    int : TypeKind
    int_lit : ℤ → TypeKind
    float : TypeKind
    float_lit : F64 → TypeKind
    str : TypeKind
    str_lit : Text → TypeKind
    list : Ty → TypeKind
    dict : Ty → Ty → TypeKind
    union : Tys → TypeKind
    schema : SchemaType → TypeKind
    number_multiplier : NumberMultiplierType → TypeKind
    function : FunctionType → TypeKind
    void : TypeKind
    module_of : ModuleType → TypeKind
    named : Text → TypeKind

  -- `Vec<Rc<Type>>` and `Option<Rc<Type>>`.
  pub data Tys : Type 0 where
    nil : Tys
    cons : Ty → Tys → Tys

  pub data OptTy : Type 0 where
    no_ty : OptTy
    some_ty : Ty → OptTy

  -- The base, the protocol, the mixins, the attributes, the constructor and the index signature.
  pub data SchemaType : Type 0 where
    schema_type :
        SchemaInfo → OptSchema → OptSchema → Schemas → Attrs → FunctionType → OptIndex → SchemaType

  pub data OptSchema : Type 0 where
    no_schema : OptSchema
    some_schema : SchemaType → OptSchema

  pub data Schemas : Type 0 where
    no_mixins : Schemas
    mixin : SchemaType → Schemas → Schemas

  -- `IndexMap<String, SchemaAttr>`, in insertion order.
  pub data Attrs : Type 0 where
    no_attrs : Attrs
    attr : Text → SchemaAttr → Attrs → Attrs

  pub data SchemaAttr : Type 0 where
    schema_attr : AttrInfo → Ty → SchemaAttr

  -- The key's type and the value's type.
  pub data OptIndex : Type 0 where
    no_index : OptIndex
    some_index : IndexInfo → Ty → Ty → OptIndex

  -- The parameters, the type of `self` and the type returned.
  pub data FunctionType : Type 0 where
    function_type : FunctionInfo → Params → OptTy → Ty → FunctionType

  -- A name, a type and whether there is a default.
  pub data Params : Type 0 where
    no_params : Params
    param : Text → Ty → Bool → Params → Params

abbrev pub kind_of : Ty → TypeKind
kind_of (ty k a f) = k

abbrev pub is_type_alias : Ty → Bool
is_type_alias (ty k a f) = a

abbrev pub to_list : Tys → List Ty
to_list nil = List.[]
to_list (cons t ts) = List.◌∷◌ t (to_list ts)

abbrev pub of_list : List Ty → Tys
of_list List.[] = nil
of_list (List.◌∷◌ t ts) = cons t (of_list ts)

abbrev pub schema_info : SchemaType → SchemaInfo
schema_info (schema_type i b p m a f x) = i
