-- ===== src/Symmetric.antt =====
-- symmetric/: the symmetric ciphers.
pub mod XChaCha20
pub mod XChaCha20Box
pub mod XSalsa20Box
pub mod Natron
pub mod NatronMultiKey
pub mod Stream
