-- ===== src/Types.antt =====
-- types/: the buffers of the library, each a `Base` with its own constructors.
pub mod SecureString
pub mod Nonce
pub mod Key
pub mod PublicKey
pub mod PrivateKey
pub mod Salt
pub mod CipherText
