-- ===== src/Symmetric/Natron/RoundTrip.antt =====
-- symmetric/natron.hpp: a token decrypts to what was encrypted, and only an authentic one decrypts.
use sylvite.Common.{
  ℕ, ◌+◌, ◌*◌, ◌^◌, ◌≤◌, ◌<◌, ◌≡◌, refl, [], ◌∷◌, ◌++◌, Bytes, length, Option, ok, arith, eq→==,
  le→ltb, read_at, read_at-append,
}
use sylvite.Common.Int.{ℤ, pos, negsuc, to_u64, u64_mod}
use sylvite.Sodium.Environment.{Environment}
use sylvite.Sodium.Codec.{Codec, CodecLaws}
use sylvite.Sodium.Secretbox.{Secretbox, SecretboxLaws}
use sylvite.Utils.Variant.{original}
use sylvite.Utils.Base64
use sylvite.Utils.Base64.RoundTrip.{decode-encode, encode-text}
use sylvite.Internal.Base.{Base, byte_type, size}
use sylvite.Symmetric.Natron.Timestamp.{read_u64_be-write_u64_be, time_point-to_i64}
use sylvite.Symmetric.Natron.Token.{layout, length-layout, encrypt_raw-layout, decrypt_raw-layout}
use sylvite.Symmetric.Natron.Lifetime.{IsTimely, check_ttl-ok}
use sylvite.Symmetric.Natron.{
  encrypt_raw, decrypt_raw, encrypt, decrypt, token_timestamp, validate_key, now_secs, write_u64_be,
}

pub to_u64-lt : (z : ℤ) → to_u64 z < u64_mod
to_u64-lt (pos n) = omega arith
to_u64-lt (negsuc n) = omega arith

module _ {box : Secretbox} (laws : SecretboxLaws box) where
  -- The bytes of a token, and what they decrypt to.
  pub decrypt_raw-encrypt_raw :
      (env : Environment) (plaintext : Bytes) (key : Base byte_type)
      → size key ≡ 32
      → length plaintext ≤ box.crypto_secretbox_messagebytes_max
      → (c : Bytes) × (length c ≡ 16 + length plaintext)
        × (encrypt_raw box env plaintext key
            ≡ ok (layout (write_u64_be (now_secs env)) (env.randombytes_buf 24) c))
        × (decrypt_raw box (layout (write_u64_be (now_secs env)) (env.randombytes_buf 24) c) key
            ≡ ok (plaintext, now_secs env))
  decrypt_raw-encrypt_raw env plaintext key sized fits =
      let n : Bytes = env.randombytes_buf 24 in
      let (c, sealed) = laws.easy_total plaintext n key.vec fits in
      let long : length c ≡ 16 + length plaintext = laws.length-easy plaintext n key.vec c sealed in
      let stamp = read_u64_be-write_u64_be (now_secs env) (to_u64-lt env.system_clock_secs) in
      (
        c,
        long,
        encrypt_raw-layout box env plaintext key c sized long sealed,
        rw (
          decrypt_raw-layout box (write_u64_be (now_secs env)) n c key stamp.0
              (env.length-randombytes_buf 24) (omega (arith, long)) sized,
          laws.open-easy plaintext n key.vec c sealed,
          stamp.1,
        ),
      )

  module _ {codec : Codec} (coding : CodecLaws codec) where
    -- For a key of 32 bytes and a plaintext within libsodium's limit, encryption returns a token, and
    -- decrypting it later under the same key gives the plaintext, with no time to live or with one that
    -- the token's age is within (the clock's tolerance not wrapping).
    pub decrypt-encrypt :
        (env later : Environment) (plaintext : Bytes) (key : Base byte_type) (ttl : Option ℤ)
        → size key ≡ 32
        → length plaintext ≤ box.crypto_secretbox_messagebytes_max
        → now_secs later + 60 < u64_mod
        → IsTimely later (now_secs env) ttl
        → (token : Bytes) × (encrypt box codec env plaintext key ≡ ok token)
          × (decrypt box codec later token key ttl ≡ ok plaintext)
    unfolding encrypt decrypt validate_key
    decrypt-encrypt env later plaintext key ttl sized fits clock timely =
        let (c, long, written, read) = decrypt_raw-encrypt_raw env plaintext key sized fits in
        let raw : Bytes = layout (write_u64_be (now_secs env)) (env.randombytes_buf 24) c in
        (
          Base64.encode codec raw original,
          rw (eq→== _ _ sized, written),
          rw (
            eq→== _ _ sized,
            decode-encode coding raw original,
            read,
            check_ttl-ok later (now_secs env) ttl clock timely,
          ),
        )

    -- For a key of 32 bytes and a plaintext within libsodium's limit, encryption returns text in
    -- the standard alphabet with padding, for 49 bytes more than the plaintext, and the timestamp
    -- that can be read off it with no key is the clock's at the encryption, for which the signed
    -- 64-bit count of ticks is large enough.
    pub token_timestamp-encrypt :
        (env : Environment) (plaintext : Bytes) (key : Base byte_type) (ticks : ℕ)
        → size key ≡ 32
        → length plaintext ≤ box.crypto_secretbox_messagebytes_max
        → 0 < ticks
        → now_secs env * ticks < 2 ^ 63
        → (raw : Bytes) × (encrypt box codec env plaintext key
            ≡ ok (coding.base64_text original raw))
          × (length raw ≡ 49 + length plaintext)
          × (token_timestamp ticks codec (coding.base64_text original raw)
              ≡ ok (pos (now_secs env * ticks)))
    unfolding encrypt token_timestamp validate_key
    token_timestamp-encrypt env plaintext key ticks sized fits some_ticks counted =
        let (c, long, written, _) = decrypt_raw-encrypt_raw env plaintext key sized fits in
        let ts : Bytes = write_u64_be (now_secs env) in
        let n : Bytes = env.randombytes_buf 24 in
        let raw : Bytes = layout ts n c in
        let stamp = read_u64_be-write_u64_be (now_secs env) (to_u64-lt env.system_clock_secs) in
        let whole : length raw ≡ 49 + length plaintext =
          omega (arith, length-layout ts n c, stamp.0, env.length-randombytes_buf 24, long) in
        let at_1 : read_at 1 8 raw ≡ ok ts = read_at-append 1 8 (1 ∷ []) ts (n ++ c) refl stamp.0 in
        let text = encode-text coding raw original in
        (
          raw,
          rw (eq→== _ _ sized, written, text),
          whole,
          rw
              (
                ← text,
                decode-encode coding raw original,
                le→ltb (length raw) 49 (omega (arith, whole)),
                at_1,
                stamp.1,
                time_point-to_i64 ticks (now_secs env) some_ticks counted,
              )
              refl,
        )
