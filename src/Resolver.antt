-- ===== src/Resolver.antt =====
-- kclvm/sema/src/resolver: the semantic checks.
pub mod Ops
pub mod Calculation
pub mod Check
pub mod Scope
