-- ===== src/Rbc.antt =====
-- honeybadgerbft/core/reliablebroadcast.py
pub mod Merkle
pub mod Coding
pub mod Handler
pub mod Bookkeeping
pub mod Invariant
pub mod Encoding
pub mod Agreement
pub mod Counting
pub mod Sends
pub mod Samples
mod Tests
