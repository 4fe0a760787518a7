-- ===== src/Tests/Keys.antt =====
-- Boxes, sealed boxes and signatures between generated key pairs, and keys that are too short.
use sylvite.Common.{
  ℕ, ◌≡◌, ◌↔◌, refl, true, false, [], ◌∷◌, Bytes, length, take, replicate, ok, throw, undefined,
  invalid_signature, arith,
}
use sylvite.Internal.Base.{Base, byte_type, size}
use sylvite.Utils.FromSkToPk
use sylvite.Asymmetric.KeyPair.{KeyPair, crypto_generate_keypair, sign_generate_keypair}
use sylvite.Asymmetric.Box.{encrypt, decrypt}
use sylvite.Asymmetric.Box.RoundTrip.{decrypt-encrypt_pairs, encrypt_short_private_key}
use sylvite.Asymmetric.SealedBox.{seal, open_pair, open_alone}
use sylvite.Asymmetric.SealedBox.RoundTrip.{open_alone-open_pair, open_alone-seal}
use sylvite.Asymmetric.Sign.{sign, verify}
use sylvite.Asymmetric.Sign.Verified.{verify-sign, verify-detached, verify_short}
use sylvite.Tests.Parameters.{clock, curve, curve_laws, signing, signing_laws}

abbrev message : Bytes
message = 1 ∷ 2 ∷ 3 ∷ []

abbrev buffer : ℕ → ℕ → Base byte_type
buffer n b = record { vec = replicate n b }

decrypt-encrypt_pairs_example :
    (a : KeyPair) × (b : KeyPair) × (ct : Base byte_type) × (crypto_generate_keypair curve (clock 0)
      ≡ ok a)
    × (crypto_generate_keypair curve (clock 1) ≡ ok b)
    × (encrypt curve (clock 2) message b.public_key a.private_key ≡ ok ct)
    × (size ct ≡ 43)
    × (take 24 ct.vec ≡ replicate 24 7)
    × (decrypt curve ct a.public_key b.private_key ≡ ok message)
decrypt-encrypt_pairs_example =
    decrypt-encrypt_pairs curve_laws (clock 0) (clock 1) (clock 2) message (omega arith)

encrypt_short_private_key_test :
    encrypt curve (clock 0) message (buffer 32 7) (buffer 0 7) ≡ undefined
unfolding size
encrypt_short_private_key_test =
    encrypt_short_private_key curve (clock 0) message (buffer 32 7) (buffer 0 7) (omega arith)
      (omega arith)

open_alone-open_pair_test :
    (pair : KeyPair) × (crypto_generate_keypair curve (clock 0) ≡ ok pair)
    × (FromSkToPk.crypto curve pair.private_key ≡ ok pair.public_key)
    × (open_alone curve (buffer 50 7) pair.private_key
        ≡ open_pair curve (buffer 50 7) pair.private_key pair.public_key)
open_alone-open_pair_test = open_alone-open_pair curve_laws (clock 0) (buffer 50 7)

open_alone-seal_example :
    (pair : KeyPair) × (ct : Base byte_type) × (crypto_generate_keypair curve (clock 0) ≡ ok pair)
    × (seal curve (clock 1) message pair.public_key ≡ ok ct)
    × (size ct ≡ 51)
    × (open_alone curve ct pair.private_key ≡ ok message)
    × (open_pair curve ct pair.private_key pair.public_key ≡ ok message)
open_alone-seal_example = open_alone-seal curve_laws (clock 0) (clock 1) message (omega arith)

verify-sign_example :
    (pair : KeyPair) × (sig : Bytes) × (sign_generate_keypair signing (clock 0) ≡ ok pair)
    × (sign signing message pair.private_key ≡ ok sig)
    × (length sig ≡ 64)
    × (verify signing sig message pair.public_key ≡ ok true)
verify-sign_example = verify-sign signing_laws (clock 0) message

verify-detached_test :
    ((verify signing (replicate 64 13) message (buffer 32 7) ≡ ok true)
      ↔ (signing.crypto_sign_verify_detached (replicate 64 13) message (replicate 32 7) ≡ true))
    × ((verify signing (replicate 64 13) message (buffer 32 7) ≡ throw invalid_signature)
        ↔ (signing.crypto_sign_verify_detached (replicate 64 13) message (replicate 32 7) ≡ false))
unfolding size
verify-detached_test = verify-detached signing (replicate 64 13) message (buffer 32 7) refl refl

verify_short_test :
    (verify signing (replicate 63 13) message (buffer 32 7) ≡ undefined)
    × (sign signing message (buffer 32 7) ≡ undefined)
unfolding size
verify_short_test =
    verify_short signing (replicate 63 13) message (buffer 32 7) (buffer 32 7) (omega arith)
      (omega arith)
