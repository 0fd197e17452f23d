-- ===== src/Crypto.antt =====
-- `crypto/`
pub mod Rng
pub mod Aead
pub mod Kdf
pub mod Hashing
pub mod Memory
