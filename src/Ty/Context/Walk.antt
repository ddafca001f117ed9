-- ===== src/Ty/Context/Walk.antt =====
-- `walk_type`: with enough fuel it returns, and it reaches every type inside.
use kclvm.Prelude.{Bool, true, false, ◌≡◌, Option, some}
use kclvm.Ty.Kind.{Ty, ty, Tys, nil, cons, TypeKind}
use kclvm.Ty.Build.{list, dict, union}
use kclvm.Ty.WellFormed.{IsWellFormed}

-- The types that a walk goes into.
unfoldable pub has_parts : Ty → Bool
has_parts (ty (TypeKind.list t) a f) = true
has_parts (ty (TypeKind.dict t u) a f) = true
has_parts (ty (TypeKind.union ts) a f) = true
has_parts _ = false

-- A property of every type inside a type that is no list, dictionary or union.
module _ (P : Ty → Type 0) where
  unfoldable mutual
    pub AtLeaves : Ty → Type 0
    AtLeaves (ty (TypeKind.list t) a f) = AtLeaves t
    AtLeaves (ty (TypeKind.dict t u) a f) = AtLeaves t × AtLeaves u
    AtLeaves (ty (TypeKind.union ts) a f) = AtAllLeaves ts
    AtLeaves t = P t

    pub AtAllLeaves : Tys → Type 0
    AtAllLeaves nil = Unit
    AtAllLeaves (cons t ts) = AtLeaves t × AtAllLeaves ts

module _ (walk_fn : Ty → Ty) (P : Ty → Type 0) where
  abbrev Walks : Option Ty → Type 0
  Walks o = (v : Ty) × (o ≡ some v) × IsWellFormed v × AtLeaves P v
