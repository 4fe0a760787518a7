-- ===== src/Asymmetric/SealedBox/RoundTrip.antt =====
-- asymmetric/box.hpp, class SealedBox: the round trip, and the two ways to open.
use sylvite.Common.{◌+◌, ◌≤◌, ◌≡◌, Bytes, length, ok, arith, read_at_whole, le→ltb}
use sylvite.Sodium.Environment.{Environment}
use sylvite.Sodium.Curve.{Curve, CurveLaws}
use sylvite.Internal.Base.{Base, byte_type, size}
use sylvite.Internal.Base.Buffers.{size-bytes}
use sylvite.Types.PublicKey.{new}
use sylvite.Types.CipherText.{of_length}
use sylvite.Utils.FromSkToPk.{crypto}
use sylvite.Asymmetric.KeyPair.{KeyPair, crypto_generate_keypair}
use sylvite.Asymmetric.KeyPair.Sizes.{write_at-of_size, pair_of, crypto_generate_keypair-keypair}
use sylvite.Asymmetric.SealedBox.{seal, open_pair, open_alone}

-- The public key derived from a generated private key is the one generated with it.
pub crypto-keypair :
    {curve : Curve} (laws : CurveLaws curve) (env : Environment)
    → let (pk, sk) = curve.crypto_box_keypair env.randombytes_buf in
      crypto curve (record { vec = sk }) ≡ ok (record { vec = pk })
unfolding crypto new
crypto-keypair {curve} laws env =
    let (pk, sk) = curve.crypto_box_keypair env.randombytes_buf in
    let paired = laws.keypair-IsPair env.randombytes_buf in
    let (pk_size, sk_size) = laws.IsPair-length pk sk paired in
    rw (
      read_at_whole 32 sk sk_size,
      laws.scalarmult_base-IsPair pk sk paired,
      write_at-of_size 32 pk pk_size,
    )

-- For a generated pair, both ways to open give the same outcome on every ciphertext.
pub open_alone-open_pair :
    {curve : Curve} (laws : CurveLaws curve) (env : Environment) (ciphertext : Base byte_type)
    → (pair : KeyPair) × (crypto_generate_keypair curve env ≡ ok pair)
      × (crypto curve pair.private_key ≡ ok pair.public_key)
      × (open_alone curve ciphertext pair.private_key
          ≡ open_pair curve ciphertext pair.private_key pair.public_key)
unfolding open_alone open_pair
open_alone-open_pair {curve} laws env ciphertext =
    let derived = crypto-keypair laws env in
    (
      pair_of (curve.crypto_box_keypair env.randombytes_buf),
      crypto_generate_keypair-keypair laws env,
      derived,
      rw derived,
    )

-- For a generated pair and a plaintext within libsodium's limit, sealing to the public key returns 48 bytes
-- more than the plaintext; the private key opens them to the plaintext, alone and with the public key.
pub open_alone-seal :
    {curve : Curve} (laws : CurveLaws curve) (env later : Environment) (plaintext : Bytes)
    → length plaintext ≤ curve.crypto_box_messagebytes_max
    → (pair : KeyPair) × (ct : Base byte_type) × (crypto_generate_keypair curve env ≡ ok pair)
      × (seal curve later plaintext pair.public_key ≡ ok ct)
      × (size ct ≡ length plaintext + 48)
      × (open_alone curve ct pair.private_key ≡ ok plaintext)
      × (open_pair curve ct pair.private_key pair.public_key ≡ ok plaintext)
unfolding seal open_alone open_pair of_length
open_alone-seal {curve} laws env later plaintext fits =
    let (pk, sk) = curve.crypto_box_keypair env.randombytes_buf in
    let paired = laws.keypair-IsPair env.randombytes_buf in
    let (pk_size, sk_size) = laws.IsPair-length pk sk paired in
    let (c, sealed) = laws.seal_total later.randombytes_buf plaintext pk sk paired fits in
    let long = laws.length-seal later.randombytes_buf plaintext pk c sealed in
    let opened = laws.open-seal later.randombytes_buf plaintext pk sk c paired sealed in
    let ct : Base byte_type = record { vec = c } in
    let whole : size ct ≡ length plaintext + 48 = omega (arith, size-bytes ct, long) in
    (
      pair_of (pk, sk),
      ct,
      crypto_generate_keypair-keypair laws env,
      rw (read_at_whole 32 pk pk_size, sealed, write_at-of_size (48 + length plaintext) c long),
      whole,
      rw (
        le→ltb (size ct) 48 (omega (arith, whole)),
        crypto-keypair laws env,
        read_at_whole 32 pk pk_size,
        read_at_whole 32 sk sk_size,
        opened,
      ),
      rw (
        le→ltb (size ct) 48 (omega (arith, whole)),
        read_at_whole 32 pk pk_size,
        read_at_whole 32 sk sk_size,
        opened,
      ),
    )
