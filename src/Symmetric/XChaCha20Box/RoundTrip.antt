-- ===== src/Symmetric/XChaCha20Box/RoundTrip.antt =====
-- symmetric/xchacha20box.hpp: the layout of a box, when it opens, and the round trip.
use sylvite.Common.{
  ℕ, ◌+◌, ◌-◌, ◌≤◌, ◌≡◌, ◌↔◌, refl, sym, ap, ◌∙◌, inl, [], inr, Bytes, length, take, drop, ◌++◌,
  length-append, some, ok, or_throw, arith, read_at, read_at_whole, read_at_start, read_at_rest,
  write_at, write_at_end, take_front, drop_front, or_throw-eq-ok, zeros, write_at_next, eq→==,
  le→ltb, ltb, ◌==◌, Bool-cases, logic_error,
}
use sylvite.Sodium.Environment.{Environment}
use sylvite.Sodium.Aead.{Aead, AeadLaws}
use sylvite.Internal.Base.{Base, byte_type, size}
use sylvite.Internal.Base.Buffers.{size-bytes, vec-of_size}
use sylvite.Types.Nonce.Fresh.{buffer-random_generate}
use sylvite.Symmetric.XChaCha20Box.{encrypt, decrypt}

-- What `decrypt` opens: the first 24 bytes are the nonce, the rest is the ciphertext with its MAC.
pub decrypt-parts :
    (aead : Aead) (ciphertext key : Base byte_type) (aad : Bytes)
    → 40 ≤ size ciphertext
    → size key ≡ 32
    → decrypt aead ciphertext key aad
      ≡ or_throw
          (aead.crypto_aead_decrypt (drop 24 ciphertext.vec) aad (take 24 ciphertext.vec) key.vec)
          logic_error
unfolding decrypt
decrypt-parts aead ciphertext key aad long sized =
    let whole = size-bytes ciphertext in
    let keyed : length key.vec ≡ 32 = sym (size-bytes key) ∙ sized in
    let body : read_at 24 (size ciphertext - 24) ciphertext.vec ≡ ok (drop 24 ciphertext.vec) =
      rw whole (read_at_rest 24 ciphertext.vec (omega (arith, whole))) in
    rw (
      le→ltb (size ciphertext) 40 long,
      eq→== _ _ sized,
      read_at_start 24 ciphertext.vec (omega (arith, whole)),
      body,
      read_at_whole 32 key.vec keyed,
    )

decrypt_checks :
    (aead : Aead) (ciphertext key : Base byte_type) (aad plaintext : Bytes)
    → decrypt aead ciphertext key aad ≡ ok plaintext
    → (40 ≤ size ciphertext) × (size key ≡ 32)
unfolding decrypt
decrypt_checks aead ciphertext key aad plaintext e = elim (Bool-cases (ltb (size ciphertext) 40)) [
  | inl short ↦ cc (rw short at e)
  | inr long ↦ elim (Bool-cases (size key == 32)) [
    | inl sized ↦ (ground arith, ground arith)
    | inr wrong ↦ cc (rw (long, wrong) at e)
  ]
]

-- `decrypt` returns a plaintext exactly when the box has at least 40 bytes, the key has 32, and
-- libsodium authenticates the bytes behind the nonce, for that nonce, key and associated data, to it.
pub decrypt_box_iff :
    (aead : Aead) (ciphertext key : Base byte_type) (aad plaintext : Bytes)
    → (decrypt aead ciphertext key aad ≡ ok plaintext) ↔ (
        (40 ≤ size ciphertext)
        × (size key ≡ 32)
        × (aead.crypto_aead_decrypt (drop 24 ciphertext.vec) aad (take 24 ciphertext.vec) key.vec
            ≡ some plaintext))
decrypt_box_iff aead ciphertext key aad plaintext = (
  λ e.
      let (long, sized) = decrypt_checks aead ciphertext key aad plaintext e in
      (
        long,
        sized,
        or_throw-eq-ok _ logic_error (sym (decrypt-parts aead ciphertext key aad long sized) ∙ e),
      ),
  λ h. decrypt-parts aead ciphertext key aad h.0 h.1 ∙ ap (λ o. or_throw o logic_error) h.2,
)

-- Where both checks pass, `encrypt` returns the nonce with the sealed plaintext behind it.
encrypt-parts :
    (aead : Aead) (env : Environment) (plaintext : Bytes) (key : Base byte_type) (aad c : Bytes)
    → size key ≡ 32
    → length c ≡ 16 + length plaintext
    → aead.crypto_aead_encrypt plaintext aad (env.randombytes_buf 24) key.vec ≡ some c
    → encrypt aead env plaintext key aad ≡ ok (record { vec = env.randombytes_buf 24 ++ c })
unfolding encrypt
encrypt-parts aead env plaintext key aad c sized long sealed =
    let n : Bytes = env.randombytes_buf 24 in
    let n_size = env.length-randombytes_buf 24 in
    let total : ℕ = 40 + length plaintext in
    let first : write_at 0 n (zeros total) ≡ ok (n ++ zeros (total - length n)) =
      write_at_next 0 total [] n refl (omega (arith, n_size)) in
    let second : write_at 24 c (n ++ zeros (total - length n)) ≡ ok (n ++ c) =
      write_at_end 24 (total - length n) n c n_size (omega (arith, n_size)) in
    rw (
      eq→== _ _ sized,
      buffer-random_generate env 24 (omega arith),
      read_at_whole 24 n n_size,
      vec-of_size,
      first,
      read_at_whole 32 key.vec (sym (size-bytes key) ∙ sized),
      sealed,
      second,
    )

module _ {aead : Aead} (laws : AeadLaws aead) where
  -- For a key of 32 bytes and a plaintext within libsodium's limit, encryption returns a box of 40
  -- bytes more than the plaintext, with the random nonce in front, that decryption under the same key
  -- and associated data opens to the plaintext.
  pub decrypt-encrypt_box :
      (env : Environment) (plaintext : Bytes) (key : Base byte_type) (aad : Bytes)
      → size key ≡ 32
      → length plaintext ≤ aead.crypto_aead_messagebytes_max
      → (ct : Base byte_type) × (encrypt aead env plaintext key aad ≡ ok ct)
        × (size ct ≡ length plaintext + 40)
        × (take 24 ct.vec ≡ env.randombytes_buf 24)
        × (decrypt aead ct key aad ≡ ok plaintext)
  decrypt-encrypt_box env plaintext key aad sized fits =
      let n : Bytes = env.randombytes_buf 24 in
      let n_size = env.length-randombytes_buf 24 in
      let (c, sealed) = laws.encrypt_total plaintext aad n key.vec fits in
      let long : length c ≡ 16 + length plaintext =
        laws.length-encrypt plaintext aad n key.vec c sealed in
      let ct : Base byte_type = record { vec = n ++ c } in
      let whole : size ct ≡ length plaintext + 40 =
        omega (arith, size-bytes ct, length-append n c, n_size, long) in
      let front = take_front 24 n c n_size in
      let behind = drop_front 24 n c n_size in
      (
        ct,
        encrypt-parts aead env plaintext key aad c sized long sealed,
        whole,
        front,
        rw (
          decrypt-parts aead ct key aad (omega (arith, whole)) sized,
          front,
          behind,
          laws.decrypt-encrypt plaintext aad n key.vec c sealed,
        ),
      )
