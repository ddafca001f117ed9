-- ===== src/Tests/Inference.antt =====
-- Runs of kclvm/sema/src/ty/context.rs and walker.rs.
use kclvm.Prelude.{◌≡◌, refl, some, true, false}
use kclvm.Ty.Kind.{Ty, ty, TypeKind}
use kclvm.Ty.WellFormed.{IsWellFormed}
use kclvm.Ty.Build.{any_ty, list}
use kclvm.Ty.Unify.{subsume}
use kclvm.Ty.Unify.Literals.{infer_to_variable_type-above}
use kclvm.Ty.Context.{infer_to_variable_type}
use kclvm.Ty.Context.Infer.{infer_to_variable_type-IsVariableType, IsVariableType}
use kclvm.Tests.Data.{show_bits, one, table}

table-IsWellFormed : IsWellFormed table
table-IsWellFormed = (refl, ((refl, tt), (refl, (refl, ((refl, tt), ((refl, tt), tt))))))

infer_to_variable_type-IsVariableType_example :
    (v : Ty) × (infer_to_variable_type show_bits table ≡ some v) × IsWellFormed v × IsVariableType v
infer_to_variable_type-IsVariableType_example =
    infer_to_variable_type-IsVariableType show_bits table table-IsWellFormed

infer_to_variable_type-above_example :
    (v : Ty) × (infer_to_variable_type show_bits (list one) ≡ some v)
    × (subsume show_bits (list one) v false ≡ some true)
infer_to_variable_type-above_example =
    infer_to_variable_type-above show_bits (list one) false (refl, (refl, tt)) tt tt

-- `None` made `any`, and all other types kept.
abbrev widen_none : Ty → Ty
widen_none (ty TypeKind.none a f) = any_ty
widen_none t = t

-- A type that is not `None`.
abbrev IsNotNone : Ty → Type 0
IsNotNone (ty TypeKind.none a f) = ⊥
IsNotNone _ = Unit
