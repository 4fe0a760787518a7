-- ===== src/Sodium/Hasher.antt =====
-- crypto_hash_sha256, crypto_hash_sha512, crypto_hash_sha3256 and crypto_hash_sha3512.
use sylvite.Common.{ℕ, ◌≡◌, Option, some, [], Bytes, length}
use sylvite.Sodium.Streaming.{Streaming, StreamingLaws}

pub data Family : Type 0 where
  sha256 sha512 sha3_256 sha3_512 : Family

abbrev pub crypto_hash_bytes : Family → ℕ
crypto_hash_bytes sha256 = 32
crypto_hash_bytes sha512 = 64
crypto_hash_bytes sha3_256 = 32
crypto_hash_bytes sha3_512 = 64

-- `none` is a nonzero status.
pub record Hasher (f : Family) : Type 1 where
  pub crypto_hash : Bytes → Option Bytes
  pub parts : Streaming
  pub init : Option parts.State

pub record HasherLaws {f : Family} (s : Hasher f) : Type 1 where
  pub hash_total : (m : Bytes) → (out : Bytes) × (s.crypto_hash m ≡ some out)
  pub length-hash : (m out : Bytes) → s.crypto_hash m ≡ some out → length out ≡ crypto_hash_bytes f
  pub parts_laws : StreamingLaws s.parts s.crypto_hash
  pub init-Absorbed : (st : s.parts.State) × (s.init ≡ some st) × parts_laws.Absorbed [] st
