-- ===== src/Ty.antt =====
-- kclvm/sema/src/ty: the static types of KCL.
pub mod Kind
pub mod Flags
pub mod Build
pub mod Equal
pub mod Into
pub mod Unify
pub mod Context
pub mod WellFormed
