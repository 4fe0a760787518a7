-- ===== src/Asymmetric/Box/RoundTrip.antt =====
-- asymmetric/box.hpp, class Box: when a box opens, the round trip, and short keys.
use sylvite.Common.{
  ℕ, ◌+◌, ◌-◌, ◌≤◌, ◌<◌, ◌≡◌, refl, ap, ◌∙◌, [], Bytes, length, take, drop, ◌++◌, length-append,
  some, ok, undefined, or_throw, arith, read_at, read_at_whole, read_at_start, read_at_rest,
  read_at_short, write_at, write_at_end, take_front, drop_front, length-replicate, zeros,
  write_at_next, le→ltb, runtime_error,
}
use sylvite.Sodium.Environment.{Environment}
use sylvite.Sodium.Curve.{Curve, CurveLaws}
use sylvite.Internal.Base.{Base, byte_type, size}
use sylvite.Internal.Base.Buffers.{size-bytes, vec-of_size}
use sylvite.Types.Nonce.{random_generate_sized}
use sylvite.Types.CipherText.{of_length}
use sylvite.Asymmetric.KeyPair.{KeyPair, crypto_generate_keypair}
use sylvite.Asymmetric.KeyPair.Sizes.{pair_of, crypto_generate_keypair-keypair}
use sylvite.Asymmetric.Box.{encrypt, decrypt}

-- The two writes of `encrypt` into its new buffer.
writes :
    (env : Environment) (c : Bytes) (n : ℕ)
    → length c ≡ 16 + n
    → (write_at 0 (env.randombytes_buf 24) (of_length (40 + n)).vec
        ≡ ok (env.randombytes_buf 24 ++ zeros (16 + n)))
      × (write_at 24 c (env.randombytes_buf 24 ++ zeros (16 + n))
          ≡ ok (env.randombytes_buf 24 ++ c))
unfolding of_length
writes env c n long =
    let nonce : Bytes = env.randombytes_buf 24 in
    let n_size = env.length-randombytes_buf 24 in
    let left : 40 + n - length nonce ≡ 16 + n = omega (arith, n_size) in
    (
      rw (vec-of_size (40 + n)) (
          write_at_next 0 (40 + n) [] nonce refl (omega (arith, n_size))
          ∙ ap (λ (k : ℕ). ok (nonce ++ zeros k)) left),
      write_at_end 24 (16 + n) nonce c n_size long,
    )

encrypt-parts :
    (curve : Curve) (env : Environment) (plaintext pk sk c : Bytes)
    → length pk ≡ 32
    → length sk ≡ 32
    → length c ≡ 16 + length plaintext
    → curve.crypto_box_easy plaintext (env.randombytes_buf 24) pk sk ≡ some c
    → encrypt curve env plaintext (record { vec = pk }) (record { vec = sk })
      ≡ ok (record { vec = env.randombytes_buf 24 ++ c })
unfolding encrypt random_generate_sized
encrypt-parts curve env plaintext pk sk c pk_size sk_size long sealed =
    let (first, second) = writes env c (length plaintext) long in
    rw (
      first,
      read_at_whole 24 (env.randombytes_buf 24) (env.length-randombytes_buf 24),
      read_at_whole 32 pk pk_size,
      read_at_whole 32 sk sk_size,
      sealed,
      second,
    )

decrypt-parts :
    (curve : Curve) (ciphertext : Base byte_type) (pk sk : Bytes)
    → 40 ≤ size ciphertext
    → length pk ≡ 32
    → length sk ≡ 32
    → decrypt curve ciphertext (record { vec = pk }) (record { vec = sk })
      ≡ or_throw
          (curve.crypto_box_open_easy (drop 24 ciphertext.vec) (take 24 ciphertext.vec) pk sk)
          runtime_error
unfolding decrypt
decrypt-parts curve ciphertext pk sk long pk_size sk_size =
    let whole = size-bytes ciphertext in
    let body : read_at 24 (size ciphertext - 24) ciphertext.vec ≡ ok (drop 24 ciphertext.vec) =
      rw whole (read_at_rest 24 ciphertext.vec (omega (arith, whole))) in
    rw (
      le→ltb (size ciphertext) 40 long,
      read_at_start 24 ciphertext.vec (omega (arith, whole)),
      body,
      read_at_whole 32 pk pk_size,
      read_at_whole 32 sk sk_size,
    )

-- For two generated pairs and a plaintext within libsodium's limit, encryption with one pair's private and
-- the other's public key returns a box of 40 bytes more than the plaintext, with the random nonce in front,
-- that decryption with the first pair's public and the other's private key opens to the plaintext.
pub decrypt-encrypt_pairs :
    {curve : Curve} (laws : CurveLaws curve) (env_a env_b env : Environment) (plaintext : Bytes)
    → length plaintext ≤ curve.crypto_box_messagebytes_max
    → (a : KeyPair) × (b : KeyPair) × (ct : Base byte_type) × (crypto_generate_keypair curve env_a
        ≡ ok a)
      × (crypto_generate_keypair curve env_b ≡ ok b)
      × (encrypt curve env plaintext b.public_key a.private_key ≡ ok ct)
      × (size ct ≡ length plaintext + 40)
      × (take 24 ct.vec ≡ env.randombytes_buf 24)
      × (decrypt curve ct a.public_key b.private_key ≡ ok plaintext)
decrypt-encrypt_pairs {curve} laws env_a env_b env plaintext fits =
    let (pk_a, sk_a) = curve.crypto_box_keypair env_a.randombytes_buf in
    let (pk_b, sk_b) = curve.crypto_box_keypair env_b.randombytes_buf in
    let pair_a = laws.keypair-IsPair env_a.randombytes_buf in
    let pair_b = laws.keypair-IsPair env_b.randombytes_buf in
    let (pk_a_size, sk_a_size) = laws.IsPair-length pk_a sk_a pair_a in
    let (pk_b_size, sk_b_size) = laws.IsPair-length pk_b sk_b pair_b in
    let n : Bytes = env.randombytes_buf 24 in
    let n_size = env.length-randombytes_buf 24 in
    let (c, sealed) = laws.easy_total plaintext n pk_a sk_a pk_b sk_b pair_a pair_b fits in
    let long = laws.length-easy plaintext n pk_b sk_a c sealed in
    let ct : Base byte_type = record { vec = n ++ c } in
    let whole : size ct ≡ length plaintext + 40 =
      omega (arith, size-bytes ct, length-append n c, n_size, long) in
    let front = take_front 24 n c n_size in
    (
      pair_of (pk_a, sk_a),
      pair_of (pk_b, sk_b),
      ct,
      crypto_generate_keypair-keypair laws env_a,
      crypto_generate_keypair-keypair laws env_b,
      encrypt-parts curve env plaintext pk_b sk_a c pk_b_size sk_a_size long sealed,
      whole,
      front,
      rw (
        decrypt-parts curve ct pk_a sk_b (omega (arith, whole)) pk_a_size sk_b_size,
        front,
        drop_front 24 n c n_size,
        laws.open-easy plaintext n pk_a sk_a pk_b sk_b c pair_a pair_b sealed,
      ),
    )

-- The sizes of the keys are not checked: with a public key of at least 32 bytes and a private key of less,
-- such as a default PrivateKey, encryption reads behind the end of the private key.
pub encrypt_short_private_key :
    (curve : Curve) (env : Environment) (plaintext : Bytes) (public private : Base byte_type)
    → 32 ≤ size public
    → size private < 32
    → encrypt curve env plaintext public private ≡ undefined
unfolding encrypt random_generate_sized
encrypt_short_private_key curve env plaintext public private long short =
    let n : Bytes = env.randombytes_buf 24 in
    let body : Bytes = zeros (16 + length plaintext) in
    let (first, _) =
      writes env body (length plaintext) (length-replicate {A = ℕ} (16 + length plaintext) 0) in
    rw (
      first,
      read_at_whole 24 n (env.length-randombytes_buf 24),
      read_at_start 32 public.vec (omega (arith, size-bytes public)),
      read_at_short 0 32 private.vec (omega (arith, size-bytes private)),
    )
