-- ===== src/Asymmetric/Sign.antt =====
-- asymmetric/box.hpp, namespace sign. The sizes of signature and keys are not checked.
pub mod Verified
use sylvite.Common.{
  ℕ, Bool, true, not, Bytes, Outcome, ok, ◌>>=◌, ◌>>◌, throw_if, or_throw, read_at, write_at, zeros,
  runtime_error, invalid_signature,
}
use sylvite.Sodium.Signing.{
  Signing, crypto_sign_bytes, crypto_sign_publickeybytes, crypto_sign_secretkeybytes,
}
use sylvite.Internal.Base.{Base, byte_type}

module _ (signing : Signing) where
  unfoldable pub sign : Bytes → Base byte_type → Outcome Bytes
  sign msg secret = do
    sk ← read_at 0 crypto_sign_secretkeybytes secret.vec
    sig ← or_throw (signing.crypto_sign_detached msg sk) runtime_error
    write_at 0 sig (zeros crypto_sign_bytes)

  unfoldable pub verify : Bytes → Bytes → Base byte_type → Outcome Bool
  verify sig msg public = do
    s ← read_at 0 crypto_sign_bytes sig
    pk ← read_at 0 crypto_sign_publickeybytes public.vec
    throw_if (not (signing.crypto_sign_verify_detached s msg pk)) invalid_signature
    ok true
