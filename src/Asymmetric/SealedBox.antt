-- ===== src/Asymmetric/SealedBox.antt =====
-- asymmetric/box.hpp, class SealedBox.
pub mod RoundTrip
use sylvite.Common.{
  ℕ, ◌+◌, Bytes, length, ltb, Outcome, ok, ◌>>=◌, ◌>>◌, throw_if, or_throw, read_at, write_at,
  runtime_error,
}
use sylvite.Sodium.Environment.{Environment}
use sylvite.Sodium.Curve.{
  Curve, crypto_box_publickeybytes, crypto_box_secretkeybytes, crypto_box_sealbytes,
}
use sylvite.Internal.Base.{Base, byte_type, size}
use sylvite.Types.CipherText.{of_length}
use sylvite.Utils.FromSkToPk

module _ (curve : Curve) where
  unfoldable pub seal : Environment → Bytes → Base byte_type → Outcome (Base byte_type)
  seal env plaintext recipient_pk = do
    pk ← read_at 0 crypto_box_publickeybytes recipient_pk.vec
    c ← or_throw (curve.crypto_box_seal env.randombytes_buf plaintext pk) runtime_error
    out ← write_at 0 c (of_length (crypto_box_sealbytes + length plaintext)).vec
    ok (record { vec = out })

  -- open with the recipient's public key
  unfoldable pub open_pair : Base byte_type → Base byte_type → Base byte_type → Outcome Bytes
  open_pair ciphertext recipient_sk recipient_pk = do
    throw_if (ltb (size ciphertext) crypto_box_sealbytes) runtime_error
    pk ← read_at 0 crypto_box_publickeybytes recipient_pk.vec
    sk ← read_at 0 crypto_box_secretkeybytes recipient_sk.vec
    or_throw (curve.crypto_box_seal_open ciphertext.vec pk sk) runtime_error

  -- open with the private key alone
  unfoldable pub open_alone : Base byte_type → Base byte_type → Outcome Bytes
  open_alone ciphertext recipient_sk = do
    throw_if (ltb (size ciphertext) crypto_box_sealbytes) runtime_error
    derived ← FromSkToPk.crypto curve recipient_sk
    pk ← read_at 0 crypto_box_publickeybytes derived.vec
    sk ← read_at 0 crypto_box_secretkeybytes recipient_sk.vec
    or_throw (curve.crypto_box_seal_open ciphertext.vec pk sk) runtime_error
