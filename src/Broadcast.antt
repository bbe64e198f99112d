-- ===== src/Broadcast.antt =====
-- The leader-based broadcasts with signatures.
pub mod Consistent
pub mod Strong
pub mod Provable
pub mod Validators
pub mod Certificate
