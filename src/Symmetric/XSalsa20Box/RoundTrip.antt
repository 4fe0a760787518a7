-- ===== src/Symmetric/XSalsa20Box/RoundTrip.antt =====
-- symmetric/xsalsa20box.hpp: the layout of a box, when it opens, and the round trip.
use sylvite.Common.{
  ℕ, ◌+◌, ◌-◌, ◌≤◌, ◌≡◌, ◌↔◌, refl, sym, ap, ◌∙◌, inl, [], ◌∷◌, inr, Bytes, length, take, drop,
  ◌++◌, length-append, some, ok, throw, or_throw, arith, read_at, read_at_whole, read_at_start,
  read_at_rest, write_at, write_at_end, take_front, drop_front, or_throw-eq-ok, zeros,
  write_at_next, eq→==, le→ltb, ltb, ◌==◌, Bool-cases, logic_error,
}
use sylvite.Sodium.Environment.{Environment}
use sylvite.Sodium.Secretbox.{Secretbox, SecretboxLaws}
use sylvite.Internal.Base.{Base, byte_type, size}
use sylvite.Internal.Base.Buffers.{size-bytes, vec-of_size}
use sylvite.Types.Nonce.Fresh.{buffer-random_generate}
use sylvite.Symmetric.XSalsa20Box.{encrypt, decrypt}

-- What `decrypt` opens: the first 24 bytes are the nonce, the rest is the ciphertext with its MAC.
pub decrypt-parts :
    (box : Secretbox) (ciphertext key : Base byte_type)
    → 40 ≤ size ciphertext
    → size key ≡ 32
    → decrypt box ciphertext key
      ≡ or_throw
          (box.crypto_secretbox_open_easy (drop 24 ciphertext.vec) (take 24 ciphertext.vec) key.vec)
          logic_error
unfolding decrypt
decrypt-parts box ciphertext key long sized =
    let whole = size-bytes ciphertext in
    let keyed : length key.vec ≡ 32 = sym (size-bytes key) ∙ sized in
    let body : read_at 24 (size ciphertext - 24) ciphertext.vec ≡ ok (drop 24 ciphertext.vec) =
      rw whole (read_at_rest 24 ciphertext.vec (omega (arith, whole))) in
    rw (
      le→ltb (size ciphertext) 40 long,
      eq→== _ _ sized,
      read_at_start 24 ciphertext.vec (omega (arith, whole)),
      body,
      read_at_whole 32 key.vec keyed,
    )

decrypt_checks :
    (box : Secretbox) (ciphertext key : Base byte_type) (plaintext : Bytes)
    → decrypt box ciphertext key ≡ ok plaintext
    → (40 ≤ size ciphertext) × (size key ≡ 32)
unfolding decrypt
decrypt_checks box ciphertext key plaintext e = elim (Bool-cases (ltb (size ciphertext) 40)) [
  | inl short ↦ cc (rw short at e)
  | inr long ↦ elim (Bool-cases (size key == 32)) [
    | inl sized ↦ (ground arith, ground arith)
    | inr wrong ↦ cc (rw (long, wrong) at e)
  ]
]

-- `decrypt` returns a plaintext exactly when the box has at least 40 bytes, the key has 32, and
-- libsodium authenticates the bytes behind the nonce, for that nonce and key, to it.
pub decrypt_secretbox_iff :
    (box : Secretbox) (ciphertext key : Base byte_type) (plaintext : Bytes)
    → (decrypt box ciphertext key ≡ ok plaintext) ↔ (
        (40 ≤ size ciphertext)
        × (size key ≡ 32)
        × (box.crypto_secretbox_open_easy (drop 24 ciphertext.vec) (take 24 ciphertext.vec) key.vec
            ≡ some plaintext))
decrypt_secretbox_iff box ciphertext key plaintext = (
  λ e.
      let (long, sized) = decrypt_checks box ciphertext key plaintext e in
      (
        long,
        sized,
        or_throw-eq-ok _ logic_error (sym (decrypt-parts box ciphertext key long sized) ∙ e),
      ),
  λ h. decrypt-parts box ciphertext key h.0 h.1 ∙ ap (λ o. or_throw o logic_error) h.2,
)

-- Where both checks pass, `encrypt` returns the nonce with the sealed plaintext behind it.
encrypt-parts :
    (box : Secretbox) (env : Environment) (plaintext : Bytes) (key : Base byte_type) (c : Bytes)
    → size key ≡ 32
    → length c ≡ 16 + length plaintext
    → box.crypto_secretbox_easy plaintext (env.randombytes_buf 24) key.vec ≡ some c
    → encrypt box env plaintext key [] ≡ ok (record { vec = env.randombytes_buf 24 ++ c })
unfolding encrypt
encrypt-parts box env plaintext key c sized long sealed =
    let n : Bytes = env.randombytes_buf 24 in
    let n_size = env.length-randombytes_buf 24 in
    let total : ℕ = 40 + length plaintext in
    let first : write_at 0 n (zeros total) ≡ ok (n ++ zeros (total - length n)) =
      write_at_next 0 total [] n refl (omega (arith, n_size)) in
    let second : write_at 24 c (n ++ zeros (total - length n)) ≡ ok (n ++ c) =
      write_at_end 24 (total - length n) n c n_size (omega (arith, n_size)) in
    rw (
      eq→== _ _ sized,
      buffer-random_generate env 24 (omega arith),
      read_at_whole 24 n n_size,
      vec-of_size,
      first,
      read_at_whole 32 key.vec (sym (size-bytes key) ∙ sized),
      sealed,
      second,
    )

module _ {box : Secretbox} (laws : SecretboxLaws box) where
  -- For a key of 32 bytes and a plaintext within libsodium's limit, encryption returns a box of 40
  -- bytes more than the plaintext, with the random nonce in front, that decryption under the same key
  -- opens to the plaintext; no associated data is given.
  pub decrypt-encrypt_secretbox :
      (env : Environment) (plaintext : Bytes) (key : Base byte_type)
      → size key ≡ 32
      → length plaintext ≤ box.crypto_secretbox_messagebytes_max
      → (ct : Base byte_type) × (encrypt box env plaintext key [] ≡ ok ct)
        × (size ct ≡ length plaintext + 40)
        × (take 24 ct.vec ≡ env.randombytes_buf 24)
        × (decrypt box ct key ≡ ok plaintext)
  decrypt-encrypt_secretbox env plaintext key sized fits =
      let n : Bytes = env.randombytes_buf 24 in
      let n_size = env.length-randombytes_buf 24 in
      let (c, sealed) = laws.easy_total plaintext n key.vec fits in
      let long : length c ≡ 16 + length plaintext = laws.length-easy plaintext n key.vec c sealed in
      let ct : Base byte_type = record { vec = n ++ c } in
      let whole : size ct ≡ length plaintext + 40 =
        omega (arith, size-bytes ct, length-append n c, n_size, long) in
      let front = take_front 24 n c n_size in
      let behind = drop_front 24 n c n_size in
      (
        ct,
        encrypt-parts box env plaintext key c sized long sealed,
        whole,
        front,
        rw (
          decrypt-parts box ct key (omega (arith, whole)) sized,
          front,
          behind,
          laws.open-easy plaintext n key.vec c sealed,
        ),
      )

-- Associated data is refused: for a key of 32 bytes and any associated data but the empty, encryption
-- throws a logic error.
encrypt_aad :
    (box : Secretbox) (env : Environment) (plaintext : Bytes) (key : Base byte_type) (b : ℕ)
    (aad : Bytes)
    → size key ≡ 32
    → encrypt box env plaintext key (b ∷ aad) ≡ throw logic_error
unfolding encrypt
encrypt_aad box env plaintext key b aad sized = rw (eq→== _ _ sized)
