-- ===== src/Hash/Sha256.antt =====
-- hash/hash.hpp, namespace Sha256, with libsodium's hash as a parameter: the namespaces Sha512, Sha3_256
-- and Sha3_512 repeat the code. The stream's other methods stand in Hash.Stream.
pub mod Parts
pub mod Refinement
pub mod Text
use sylvite.Common.{ℕ, false, Bytes, Outcome, ok, ◌>>=◌, or_throw, runtime_error}
use sylvite.Sodium.Codec.{Codec}
use sylvite.Sodium.Hasher.{Family, Hasher, crypto_hash_bytes}
use sylvite.Utils.Hex
use sylvite.Hash.Stream.{Stream}

abbrev pub digest_size : Family → ℕ
digest_size f = crypto_hash_bytes f

module _ {f : Family} (hasher : Hasher f) where
  unfoldable pub digest : Bytes → Outcome Bytes
  digest input = or_throw (hasher.crypto_hash input) runtime_error

  unfoldable pub hexdigest : Codec → Bytes → Outcome Bytes
  unfolding digest
  hexdigest codec input = digest input >>= λ out. ok (Hex.encode codec out)

  -- Stream()
  unfoldable pub new : Outcome (Stream hasher.parts)
  new = or_throw hasher.init runtime_error >>= λ st. ok (record { state = st; finalized = false })
