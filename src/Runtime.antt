-- ===== src/Runtime.antt =====
-- kclvm/runtime: operations on values at run time.
pub mod Slice
