-- ===== src/ItemIndex.antt =====
-- The item indexes: src/containers/ItemIndexPrivates and its headers.
pub mod SetOp
pub mod Find
pub mod Delta
pub mod RunDelta
mod Examples
