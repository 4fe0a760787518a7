-- ===== src/Asymmetric/Box.antt =====
-- asymmetric/box.hpp, class Box: the nonce in front of the MAC and the ciphertext.
pub mod RoundTrip
use sylvite.Common.{
  ℕ, ◌+◌, ◌-◌, Bytes, length, ltb, Outcome, ok, ◌>>=◌, ◌>>◌, throw_if, or_throw, read_at, write_at,
  runtime_error,
}
use sylvite.Sodium.Environment.{Environment}
use sylvite.Sodium.Curve.{
  Curve, crypto_box_noncebytes, crypto_box_macbytes, crypto_box_publickeybytes,
  crypto_box_secretkeybytes,
}
use sylvite.Internal.Base.{Base, byte_type, size}
use sylvite.Types.Nonce.{new, random_generate_sized}
use sylvite.Types.CipherText.{of_length}

module _ (curve : Curve) where
  -- The sizes of the keys are not checked.
  unfoldable pub encrypt :
      Environment → Bytes → Base byte_type → Base byte_type → Outcome (Base byte_type)
  encrypt env plaintext recipient_pk sender_sk = do
    let nonce = random_generate_sized env new crypto_box_noncebytes
    out ←
        write_at 0 nonce.buffer.vec
          (of_length (crypto_box_noncebytes + crypto_box_macbytes + length plaintext)).vec
    n ← read_at 0 crypto_box_noncebytes nonce.buffer.vec
    pk ← read_at 0 crypto_box_publickeybytes recipient_pk.vec
    sk ← read_at 0 crypto_box_secretkeybytes sender_sk.vec
    c ← or_throw (curve.crypto_box_easy plaintext n pk sk) runtime_error
    out' ← write_at crypto_box_noncebytes c out
    ok (record { vec = out' })

  unfoldable pub decrypt : Base byte_type → Base byte_type → Base byte_type → Outcome Bytes
  decrypt ciphertext sender_pk recipient_sk = do
    throw_if (ltb (size ciphertext) (crypto_box_noncebytes + crypto_box_macbytes)) runtime_error
    n ← read_at 0 crypto_box_noncebytes ciphertext.vec
    c ← read_at crypto_box_noncebytes (size ciphertext - crypto_box_noncebytes) ciphertext.vec
    pk ← read_at 0 crypto_box_publickeybytes sender_pk.vec
    sk ← read_at 0 crypto_box_secretkeybytes recipient_sk.vec
    or_throw (curve.crypto_box_open_easy c n pk sk) runtime_error
