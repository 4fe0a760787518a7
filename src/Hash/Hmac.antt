-- ===== src/Hash/Hmac.antt =====
-- hash/hmac.hpp, namespace HmacSha256, with libsodium's algorithm as a parameter: the namespace
-- HmacSha512 repeats the code.
pub mod Verify
pub mod Parts
pub mod Refinement
use sylvite.Common.{
  ℕ, Bool, true, false, not, [], Bytes, length, ◌==◌, if◌then◌else◌, Option, none, some, Outcome,
  ok, throw, ◌>>=◌, ◌>>◌, throw_if, or_throw, logic_error, runtime_error,
}
use sylvite.Hash.Stream
use sylvite.Hash.Stream.{Stream}
use sylvite.Sodium.Auth.{Algorithm, Auth, crypto_auth_bytes, crypto_auth_keybytes}

abbrev pub digest_size : Algorithm → ℕ
digest_size a = crypto_auth_bytes a

abbrev pub key_size : ℕ
key_size = crypto_auth_keybytes

module _ {a : Algorithm} (auth : Auth a) where
  -- Both overloads.
  unfoldable pub mac : Bytes → Bytes → Outcome Bytes
  mac input key = do
    throw_if (not (length key == key_size)) logic_error
    or_throw (auth.crypto_auth input key) runtime_error

  unfoldable pub verify : Bytes → Bytes → Bytes → Outcome Bool
  verify tag input key =
      if not (length tag == digest_size a)
      then ok false
      else throw_if (not (length key == key_size)) logic_error
        >> ok (auth.crypto_auth_verify tag input key)

  -- Stream(key): the size of the key is not checked.
  unfoldable pub new : Bytes → Outcome (Stream auth.parts)
  new key =
      or_throw (auth.init key) runtime_error >>= λ st. ok (record { state = st; finalized = false })

  unfoldable pub update : Stream auth.parts → Bytes → Stream auth.parts × Outcome (Unit {0})
  update = Stream.update auth.parts

  unfoldable pub finalize : Stream auth.parts → Stream auth.parts × Outcome Bytes
  finalize = Stream.finalize auth.parts

  unfoldable pub is_finalized : Stream auth.parts → Bool
  is_finalized = Stream.is_finalized auth.parts
