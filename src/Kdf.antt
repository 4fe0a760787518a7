-- ===== src/Kdf.antt =====
-- kdf/: keys derived from a key or from a password.
pub mod Profile
pub mod Hkdf
pub mod Argon2id
