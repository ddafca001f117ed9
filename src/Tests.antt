-- ===== src/Tests.antt =====
-- Runs of the lexers of KCL and of slices, and of kclvm/sema/src/ty and resolver at concrete types.
mod Subtyping
mod Inference
mod Operators
mod Checks
mod Scopes
mod Lexing
mod Slices
mod Diagnostics
pub mod Data
