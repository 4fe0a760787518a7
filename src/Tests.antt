-- ===== src/Tests.antt =====
-- Concrete parameters, and each theorem at concrete inputs.
pub mod Parameters
pub mod Buffers
pub mod Boxes
pub mod Tokens
pub mod Keyrings
pub mod Threads
pub mod Streams
pub mod Hashes
pub mod Digests
pub mod Keys
pub mod System
pub mod Exchanges
