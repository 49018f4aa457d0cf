-- ===== src/Engine.antt =====
-- The entity-component engine of engine/include and engine/src.
pub mod SparseArray
pub mod Registry
pub mod Zipper
