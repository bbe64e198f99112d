-- ===== src/Mule.antt =====
-- mulebft/core
pub mod Fast
pub mod TwoValue
