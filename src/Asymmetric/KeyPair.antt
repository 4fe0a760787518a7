-- ===== src/Asymmetric/KeyPair.antt =====
-- asymmetric/keypair.hpp: key pairs for boxes and for signatures.
pub mod Sizes
use sylvite.Common.{Outcome, ok, ◌>>=◌, write_at}
use sylvite.Sodium.Environment.{Environment}
use sylvite.Sodium.Curve.{Curve}
use sylvite.Sodium.Signing.{Signing}
use sylvite.Internal.Base.{Base, byte_type}
use sylvite.Types.PublicKey
use sylvite.Types.PrivateKey

pub record KeyPair : Type 0 where
  pub public_key : Base byte_type
  pub private_key : Base byte_type

-- libsodium writes both keys into buffers of their sizes; its status is not looked at.
unfoldable pub crypto_generate_keypair : Curve → Environment → Outcome KeyPair
crypto_generate_keypair curve env = do
  let (p, s) = curve.crypto_box_keypair env.randombytes_buf
  pk ← write_at 0 p PublicKey.new.vec
  sk ← write_at 0 s PrivateKey.crypto.vec
  ok (record { public_key = record { vec = pk }; private_key = record { vec = sk } })

unfoldable pub sign_generate_keypair : Signing → Environment → Outcome KeyPair
sign_generate_keypair signing env = do
  let (p, s) = signing.crypto_sign_keypair env.randombytes_buf
  pk ← write_at 0 p PublicKey.new.vec
  sk ← write_at 0 s PrivateKey.sign.vec
  ok (record { public_key = record { vec = pk }; private_key = record { vec = sk } })
