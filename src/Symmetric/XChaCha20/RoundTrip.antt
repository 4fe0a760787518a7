-- ===== src/Symmetric/XChaCha20/RoundTrip.antt =====
-- symmetric/xchacha20.hpp: encryption with a fresh nonce succeeds and is inverted by decryption.
use sylvite.Common.{
  ◌+◌, ◌≤◌, ◌≡◌, refl, sym, ◌∙◌, ◌⊎◌, inl, inr, true, false, Bytes, length, take, ok, arith,
  read_at_whole, read_at_start, le→ltb, eq→==,
}
use sylvite.Sodium.Environment.{Environment}
use sylvite.Sodium.Aead.{Aead, AeadLaws}
use sylvite.Internal.Base.{Base, byte_type, size, empty}
use sylvite.Internal.Base.Buffers.{size-bytes}
use sylvite.Types.Nonce.{Generation, lazy, eager, Nonce, modify, random_generate_sized}
use sylvite.Symmetric.XChaCha20.{generated, seal, marked, encrypt, decrypt}

-- The nonce has the algorithm's size, or is a lazy one that has no bytes yet.
abbrev pub IsReady : {M : Generation} → Nonce M → Type 0
IsReady {M} nonce = (size nonce.buffer ≡ 24) ⊎ ((M ≡ lazy) × (size nonce.buffer ≡ 0))

pub generated-size :
    (env : Environment) {M : Generation} (nonce : Nonce M)
    → IsReady nonce
    → size (generated env nonce).buffer ≡ 24
unfolding generated empty random_generate_sized
generated-size env {M = lazy} nonce (inl h) = ground arith
generated-size env {M = lazy} nonce (inr h) =
    rw (h.1) (size-bytes (record { vec = env.randombytes_buf 24 }) ∙ env.length-randombytes_buf 24)
generated-size env {M = eager} nonce (inl h) = h
generated-size env {M = eager} nonce (inr h) = cc h.0

-- With an unused nonce of the right size, the call goes through to libsodium.
pub encrypt-marked :
    (aead : Aead) (env : Environment) {M : Generation} (plaintext : Bytes) (key : Base byte_type)
    (nonce : Nonce M) (aad : Bytes)
    → nonce.used ≡ false
    → IsReady nonce
    → let nonce' = generated env nonce in
      encrypt aead env plaintext key nonce aad
      ≡ marked nonce' (seal aead plaintext key nonce'.buffer.vec aad)
unfolding encrypt
encrypt-marked aead env plaintext key nonce aad fresh ready =
    simp (fresh, eq→== _ _ (generated-size env nonce ready))

module _ {aead : Aead} (laws : AeadLaws aead) where
  -- With an unused nonce that is ready, a key of at least 32 bytes and a plaintext within libsodium's
  -- limit, encryption succeeds: the nonce ends up used, the ciphertext is 16 bytes longer than the
  -- plaintext, and decryption with that nonce, the key and the same associated data gives it back.
  pub decrypt-encrypt_kept :
      (env : Environment) {M : Generation} (plaintext : Bytes) (key : Base byte_type)
      (nonce : Nonce M) (aad : Bytes)
      → nonce.used ≡ false
      → IsReady nonce
      → 32 ≤ size key
      → length plaintext ≤ aead.crypto_aead_messagebytes_max
      → let (after, result) = encrypt aead env plaintext key nonce aad in
        (ct : Base byte_type) × (result ≡ ok ct)
        × (after.used ≡ true)
        × (size ct ≡ length plaintext + 16)
        × (decrypt aead ct key after aad ≡ ok plaintext)
  unfolding seal marked decrypt modify
  decrypt-encrypt_kept env plaintext key nonce aad fresh ready long fits =
      let nonce' = generated env nonce in
      let n : Bytes = nonce'.buffer.vec in
      let k : Bytes = take 32 key.vec in
      let sized : length n ≡ 24 = sym (size-bytes nonce'.buffer) ∙ generated-size env nonce ready in
      let n_read = read_at_whole 24 n sized in
      let k_read = read_at_start 32 key.vec (rw (size-bytes key) at long) in
      let (c, sealed) = laws.encrypt_total plaintext aad n k fits in
      let long_c = laws.length-encrypt plaintext aad n k c sealed in
      let ct : Base byte_type = record { vec = c } in
      let not_short = le→ltb (size ct) 16 (omega (arith, size-bytes ct, long_c)) in
      rw (encrypt-marked aead env plaintext key nonce aad fresh ready, n_read, k_read, sealed)
        (
          ct,
          refl,
          refl,
          omega (arith, size-bytes ct, long_c),
          rw (not_short, n_read, laws.decrypt-encrypt plaintext aad n k c sealed),
        )
