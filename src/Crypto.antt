-- ===== src/Crypto.antt =====
-- crypto
pub mod Boldyreva
pub mod MillerRabin
pub mod Tpke
