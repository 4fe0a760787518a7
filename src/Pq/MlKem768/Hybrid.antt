-- ===== src/Pq/MlKem768/Hybrid.antt =====
-- pq/kem.hpp with symmetric/xchacha20.hpp: the exchange that the documentation of pq/kem.hpp shows.
use sylvite.Common.{◌≤◌, ◌≡◌, false, arith, Bytes, length, ok}
use sylvite.Sodium.Environment.{Environment}
use sylvite.Sodium.Kem.{Kem, KemLaws}
use sylvite.Sodium.Aead.{Aead, AeadLaws}
use sylvite.Internal.Base.{Base, byte_type, size}
use sylvite.Types.Nonce.{Generation, Nonce}
use sylvite.Pq.Kem.{KeyPair}
use sylvite.Pq.Kem.RoundTrip.{decapsulate-encapsulate}
use sylvite.Pq.MlKem768.{generate_keypair, encapsulate, decapsulate}
use sylvite.Symmetric.XChaCha20
use sylvite.Symmetric.XChaCha20.RoundTrip.{IsReady, decrypt-encrypt_kept}

-- For a shared secret of 32 bytes, an unused nonce that is ready and a message within libsodium's limit:
-- the recipient generates a pair, the sender encapsulates for its public key and encrypts the message with
-- the shared secret, and the recipient decapsulates the capsule with the secret key and decrypts the
-- message. Every step succeeds.
pub decrypt-decapsulate :
    {kem : Kem} (kem_laws : KemLaws kem) {aead : Aead} (aead_laws : AeadLaws aead)
    (recipient sender later : Environment) {M : Generation} (message aad : Bytes) (nonce : Nonce M)
    → kem.sharedsecretbytes ≡ 32
    → nonce.used ≡ false
    → IsReady nonce
    → length message ≤ aead.crypto_aead_messagebytes_max
    → (pair : KeyPair) × (ss : Base byte_type) × (capsule : Base byte_type) × (ct : Base byte_type)
      × (key : Base byte_type) × (generate_keypair kem recipient ≡ ok pair)
      × (encapsulate kem sender pair.public_key ≡ ok (ss, capsule))
      × ((XChaCha20.encrypt aead later message ss nonce aad).1 ≡ ok ct)
      × (decapsulate kem capsule pair.secret_key ≡ ok key)
      × (XChaCha20.decrypt aead ct key (XChaCha20.encrypt aead later message ss nonce aad).0 aad
          ≡ ok message)
unfolding generate_keypair encapsulate decapsulate
decrypt-decapsulate {kem} kem_laws aead_laws recipient sender later message aad nonce secret_size
      fresh ready fits =
    let (pair, made, _, _, ss, capsule, sent, ss_size, _, received) =
      decapsulate-encapsulate kem_laws recipient sender in
    let long : 32 ≤ size ss = omega (arith, ss_size, secret_size) in
    let (ct, sealed, _, _, opened) =
      decrypt-encrypt_kept aead_laws later message ss nonce aad fresh ready long fits in
    (pair, ss, capsule, ct, ss, made, sent, sealed, rw received, opened)
