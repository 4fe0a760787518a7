-- ===== src/Pq/Kem/RoundTrip.antt =====
-- pq/kem.hpp: both sides get one shared secret.
use sylvite.Common.{◌≡◌, ◌∙◌, ok, eq→==, read_at_whole, Bytes, write_at-resized}
use sylvite.Sodium.Environment.{Environment}
use sylvite.Sodium.Kem.{Kem, KemLaws}
use sylvite.Internal.Base.{Base, byte_type, size}
use sylvite.Internal.Base.Buffers.{size-bytes}
use sylvite.Types.PublicKey
use sylvite.Types.PrivateKey
use sylvite.Pq.Kem.{KeyPair, generate_keypair, encapsulate, decapsulate}

module _ {kem : Kem} (laws : KemLaws kem) where
  -- A generated pair has keys of libsodium's sizes, encapsulation for its public key succeeds and gives a
  -- shared secret and a ciphertext of libsodium's sizes, and decapsulation of that ciphertext with the
  -- secret key gives the same shared secret.
  pub decapsulate-encapsulate :
      (env later : Environment)
      → (pair : KeyPair) × (generate_keypair kem env ≡ ok pair)
        × (size pair.public_key ≡ kem.publickeybytes)
        × (size pair.secret_key ≡ kem.secretkeybytes)
        × (ss : Base byte_type) × (ct : Base byte_type) × (encapsulate kem later pair.public_key
            ≡ ok (ss, ct))
        × (size ss ≡ kem.sharedsecretbytes)
        × (size ct ≡ kem.ciphertextbytes)
        × (decapsulate kem ct pair.secret_key ≡ ok ss.vec)
  unfolding generate_keypair PublicKey.resize PrivateKey.resize encapsulate decapsulate
  decapsulate-encapsulate env later =
      let ((pk, sk), made) = laws.keypair_total env.randombytes_buf in
      let (pk_size, sk_size) = laws.length-keypair env.randombytes_buf pk sk made in
      let ((ct, ss), sealed) =
        laws.enc-keypair env.randombytes_buf later.randombytes_buf pk sk made in
      let (ct_size, ss_size) = laws.length-enc later.randombytes_buf pk ct ss sealed in
      let opened = laws.dec-enc env.randombytes_buf later.randombytes_buf pk sk ct ss made sealed in
      let buffer : Bytes → Base byte_type = λ bytes. record { vec = bytes } in
      (
        record { public_key = buffer pk; secret_key = buffer sk },
        rw (
          made,
          write_at-resized kem.publickeybytes pk PublicKey.new.vec pk_size,
          write_at-resized kem.secretkeybytes sk PrivateKey.new.vec sk_size,
        ),
        size-bytes (buffer pk) ∙ pk_size,
        size-bytes (buffer sk) ∙ sk_size,
        buffer ss,
        buffer ct,
        rw (
          eq→== _ _ (size-bytes (buffer pk) ∙ pk_size),
          read_at_whole kem.publickeybytes pk pk_size,
          sealed,
        ),
        size-bytes (buffer ss) ∙ ss_size,
        size-bytes (buffer ct) ∙ ct_size,
        rw (
          eq→== _ _ (size-bytes (buffer ct) ∙ ct_size),
          eq→== _ _ (size-bytes (buffer sk) ∙ sk_size),
          read_at_whole kem.ciphertextbytes ct ct_size,
          read_at_whole kem.secretkeybytes sk sk_size,
          opened,
        ),
      )
