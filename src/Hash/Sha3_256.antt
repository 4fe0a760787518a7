-- ===== src/Hash/Sha3_256.antt =====
-- hash/hash.hpp, namespace Sha3_256: the code of Sha256 with another hash.
use sylvite.Common.{ℕ, Bool, Bytes, Outcome}
use sylvite.Sodium.Codec.{Codec}
use sylvite.Sodium.Hasher.{Hasher, sha3_256}
use sylvite.Hash.Stream
use sylvite.Hash.Stream.{Stream}
use sylvite.Hash.Sha256

abbrev pub digest_size : ℕ
digest_size = Sha256.digest_size sha3_256

module _ (hasher : Hasher sha3_256) where
  unfoldable pub digest : Bytes → Outcome Bytes
  digest = Sha256.digest hasher

  unfoldable pub hexdigest : Codec → Bytes → Outcome Bytes
  hexdigest = Sha256.hexdigest hasher

  unfoldable pub new : Outcome (Stream hasher.parts)
  new = Sha256.new hasher

  unfoldable pub update : Stream hasher.parts → Bytes → Stream hasher.parts × Outcome (Unit {0})
  update = Stream.update hasher.parts

  unfoldable pub finalize : Stream hasher.parts → Stream hasher.parts × Outcome Bytes
  finalize = Stream.finalize hasher.parts

  unfoldable pub is_finalized : Stream hasher.parts → Bool
  is_finalized = Stream.is_finalized hasher.parts
