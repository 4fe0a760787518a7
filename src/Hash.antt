-- ===== src/Hash.antt =====
-- hash/: the hashes and the keyed hashes.
pub mod Stream
pub mod Sha256
pub mod Sha512
pub mod Sha3_256
pub mod Sha3_512
pub mod Blake2b
pub mod Hmac
pub mod HmacSha512
