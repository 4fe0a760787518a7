-- ===== src/Asymmetric/KeyPair/Sizes.antt =====
-- asymmetric/keypair.hpp: generation succeeds, and the keys are libsodium's pair.
use sylvite.Common.{
  ℕ, ◌≡◌, sym, ◌∙◌, Bytes, length, zeros, length-replicate, ok, write_at, write_at_whole,
}
use sylvite.Sodium.Environment.{Environment}
use sylvite.Sodium.Curve.{Curve, CurveLaws}
use sylvite.Sodium.Signing.{Signing, SigningLaws}
use sylvite.Internal.Base.{byte_type, of_size}
use sylvite.Internal.Base.Buffers.{vec-of_size}
use sylvite.Types.PublicKey
use sylvite.Types.PrivateKey
use sylvite.Asymmetric.KeyPair.{KeyPair, crypto_generate_keypair, sign_generate_keypair}

-- What stands in a new buffer of n bytes after libsodium has written n bytes.
pub write_at-of_size :
    (n : ℕ) (bytes : Bytes)
    → length bytes ≡ n
    → write_at 0 bytes (of_size byte_type n).vec ≡ ok bytes
write_at-of_size n bytes h =
    rw (vec-of_size n) (write_at_whole bytes (zeros n) (h ∙ sym (length-replicate n 0)))

abbrev pub pair_of : Bytes × Bytes → KeyPair
pair_of keys = record {
  public_key = record { vec = keys.0 };
  private_key = record { vec = keys.1 };
}

pub crypto_generate_keypair-keypair :
    {curve : Curve} (laws : CurveLaws curve) (env : Environment)
    → crypto_generate_keypair curve env
      ≡ ok (pair_of (curve.crypto_box_keypair env.randombytes_buf))
unfolding crypto_generate_keypair PublicKey.new PrivateKey.crypto PrivateKey.of_length
crypto_generate_keypair-keypair {curve} laws env =
    let keys = curve.crypto_box_keypair env.randombytes_buf in
    let (pk_size, sk_size) =
      laws.IsPair-length keys.0 keys.1 (laws.keypair-IsPair env.randombytes_buf) in
    rw (write_at-of_size 32 keys.0 pk_size, write_at-of_size 32 keys.1 sk_size)

pub sign_generate_keypair-keypair :
    {signing : Signing} (laws : SigningLaws signing) (env : Environment)
    → sign_generate_keypair signing env
      ≡ ok (pair_of (signing.crypto_sign_keypair env.randombytes_buf))
unfolding sign_generate_keypair PublicKey.new PrivateKey.sign PrivateKey.of_length
sign_generate_keypair-keypair {signing} laws env =
    let keys = signing.crypto_sign_keypair env.randombytes_buf in
    let (pk_size, sk_size) =
      laws.IsPair-length keys.0 keys.1 (laws.keypair-IsPair env.randombytes_buf) in
    rw (write_at-of_size 32 keys.0 pk_size, write_at-of_size 64 keys.1 sk_size)
