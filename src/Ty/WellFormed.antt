-- ===== src/Ty/WellFormed.antt =====
-- The representation invariant of `Type` in kclvm/sema/src/ty/mod.rs: the cached flags say what the
-- kind says, in a type and in all that subtyping and inference can reach in it.
pub mod Cases
use kclvm.Prelude.{ℕ, List, [], ◌∷◌, ◌≡◌, ap, Bool}
use kclvm.Ty.Kind.{Ty, ty, Tys, nil, cons, TypeKind}
use kclvm.Ty.Flags.{
  TypeFlags, flag_void, flag_int, flag_float, flag_str, flag_bool, flag_any, flag_none, flag_list,
  flag_dict, flag_schema, flag_union, flag_literal, flag_number_multiplier, flag_function,
  flag_module, flag_named, with_flag,
}

abbrev pub flags_of : TypeKind → TypeFlags
flags_of TypeKind.none = flag_none
flags_of TypeKind.any = flag_any
flags_of TypeKind.bool = flag_bool
flags_of (TypeKind.bool_lit v) = with_flag flag_bool flag_literal
flags_of TypeKind.int = flag_int
flags_of (TypeKind.int_lit v) = with_flag flag_int flag_literal
flags_of TypeKind.float = flag_float
flags_of (TypeKind.float_lit v) = with_flag flag_float flag_literal
flags_of TypeKind.str = flag_str
flags_of (TypeKind.str_lit v) = with_flag flag_str flag_literal
flags_of (TypeKind.list t) = flag_list
flags_of (TypeKind.dict k v) = flag_dict
flags_of (TypeKind.union ts) = flag_union
flags_of (TypeKind.schema s) = flag_schema
flags_of (TypeKind.number_multiplier m) = flag_number_multiplier
flags_of (TypeKind.function g) = flag_function
flags_of TypeKind.void = flag_void
flags_of (TypeKind.module_of m) = flag_module
flags_of (TypeKind.named n) = flag_named

abbrev mutual
  pub IsWellFormed : Ty → Type 0
  IsWellFormed (ty k a f) = (f ≡ flags_of k) × KindIsWellFormed k

  pub KindIsWellFormed : TypeKind → Type 0
  KindIsWellFormed (TypeKind.list t) = IsWellFormed t
  KindIsWellFormed (TypeKind.dict k v) = IsWellFormed k × IsWellFormed v
  KindIsWellFormed (TypeKind.union ts) = TysAreWellFormed ts
  KindIsWellFormed _ = Unit

  pub TysAreWellFormed : Tys → Type 0
  TysAreWellFormed nil = Unit
  TysAreWellFormed (cons t ts) = IsWellFormed t × TysAreWellFormed ts

-- The one well-formed type of a kind, up to the alias mark and the flags inside.
abbrev pub canonical : TypeKind → Bool → Ty
canonical k a = ty k a (flags_of k)

pub eq-canonical :
    (k : TypeKind) (a : Bool) (f : ℕ) → IsWellFormed (ty k a f) → ty k a f ≡ canonical k a
eq-canonical k a f w = ap (ty k a) w.0
