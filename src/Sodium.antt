-- ===== src/Sodium.antt =====
-- What the code takes from outside the repository: libsodium, the clock and the random source.
-- Each child is a record of functions and a record of the laws that libsodium documents for them.
-- The sizes are those that the headers of the library state in their comments.
pub mod Environment
pub mod Library
pub mod Terminal
pub mod WindowsConsole
pub mod Memory
pub mod Secretbox
pub mod Aead
pub mod Curve
pub mod Signing
pub mod Streaming
pub mod Hasher
pub mod GenericHash
pub mod Auth
pub mod Derivation
pub mod Kem
pub mod Codec
pub mod Secretstream
