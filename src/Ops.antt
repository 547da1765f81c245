-- ===== src/Ops.antt =====
-- Modules of rust/porta-server/src/ops.
pub mod Drain
pub mod Admission
