-- ===== src/Utils/FromSkToPk.antt =====
-- utils/topk.hpp: the class FromSkToPk. The sizes of the private keys are not checked.
use sylvite.Common.{Outcome, ok, ◌>>=◌, or_throw, read_at, write_at, runtime_error}
use sylvite.Sodium.Curve.{Curve, crypto_box_secretkeybytes}
use sylvite.Sodium.Signing.{Signing, crypto_sign_secretkeybytes}
use sylvite.Internal.Base.{Base, byte_type}
use sylvite.Types.PublicKey.{new}

unfoldable pub crypto : Curve → Base byte_type → Outcome (Base byte_type)
crypto curve sk = do
  k ← read_at 0 crypto_box_secretkeybytes sk.vec
  p ← or_throw (curve.crypto_scalarmult_base k) runtime_error
  pk ← write_at 0 p new.vec
  ok (record { vec = pk })

unfoldable pub sign : Signing → Base byte_type → Outcome (Base byte_type)
sign signing sk = do
  k ← read_at 0 crypto_sign_secretkeybytes sk.vec
  p ← or_throw (signing.crypto_sign_sk_to_pk k) runtime_error
  pk ← write_at 0 p new.vec
  ok (record { vec = pk })
