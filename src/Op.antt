-- ===== src/Op.antt =====
-- The operations of src/op.
pub mod Completion
