-- ===== src/Hash/HmacSha512.antt =====
-- hash/hmac.hpp, namespace HmacSha512: the code of HmacSha256 with the other algorithm.
use sylvite.Common.{ℕ, Bool, Bytes, Outcome}
use sylvite.Sodium.Auth.{Auth, sha512}
use sylvite.Hash.Hmac
use sylvite.Hash.Stream.{Stream}

abbrev pub digest_size : ℕ
digest_size = Hmac.digest_size sha512

abbrev pub key_size : ℕ
key_size = Hmac.key_size

module _ (auth : Auth sha512) where
  unfoldable pub mac : Bytes → Bytes → Outcome Bytes
  mac = Hmac.mac auth

  unfoldable pub verify : Bytes → Bytes → Bytes → Outcome Bool
  verify = Hmac.verify auth

  unfoldable pub new : Bytes → Outcome (Stream auth.parts)
  new = Hmac.new auth

  unfoldable pub update : Stream auth.parts → Bytes → Stream auth.parts × Outcome (Unit {0})
  update = Hmac.update auth

  unfoldable pub finalize : Stream auth.parts → Stream auth.parts × Outcome Bytes
  finalize = Hmac.finalize auth

  unfoldable pub is_finalized : Stream auth.parts → Bool
  is_finalized = Hmac.is_finalized auth
