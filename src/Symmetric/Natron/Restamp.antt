-- ===== src/Symmetric/Natron/Restamp.antt =====
-- symmetric/natron.hpp: crypto_secretbox has no associated data, so nothing authenticates the
-- timestamp of a token.
use sylvite.Common.{
  ℕ, ◌+◌, ◌≤◌, ◌<◌, ◌≡◌, sym, ap, ◌∙◌, ◌∷◌, ◌++◌, Bytes, length, take, drop, length-take,
  length-drop, drop-drop, take-append-drop, some, ok, arith, le→ltb,
}
use sylvite.Common.Int.{ℤ, to_u64, u64_mod}
use sylvite.Sodium.Environment.{Environment}
use sylvite.Sodium.Codec.{Codec, CodecLaws}
use sylvite.Sodium.Secretbox.{Secretbox}
use sylvite.Utils.Variant.{original}
use sylvite.Utils.Base64
use sylvite.Utils.Base64.RoundTrip.{decode-encode}
use sylvite.Internal.Base.{Base, byte_type, size}
use sylvite.Symmetric.Natron.Timestamp.{read_u64_be-write_u64_be}
use sylvite.Symmetric.Natron.Token.{layout, decrypt_raw-layout, decrypt_raw-Opens}
use sylvite.Symmetric.Natron.Lifetime.{decrypt_ttl}
use sylvite.Symmetric.Natron.RoundTrip.{to_u64-lt}
use sylvite.Symmetric.Natron.{decrypt_raw, decrypt, now_secs, write_u64_be, read_u64_be}

-- The token's bytes with other timestamp bytes, a change that takes no key.
abbrev pub restamp : Bytes → Bytes → Bytes
restamp raw timestamp = take 1 raw ++ (timestamp ++ drop 9 raw)

restamp-layout :
    (rest timestamp : Bytes)
    → restamp (1 ∷ rest) timestamp ≡ layout timestamp (take 24 (drop 8 rest)) (drop 32 rest)
restamp-layout rest timestamp =
    ap (λ (t : Bytes). 1 ∷ timestamp ++ t)
      (sym (take-append-drop 24 (drop 8 rest))
        ∙ ap (◌++◌ (take 24 (drop 8 rest))) (sym (drop-drop 8 24 rest)))

-- Bytes that open under a key of 32 bytes open to the same plaintext with any other eight timestamp
-- bytes, and then with the timestamp that those spell.
pub decrypt_raw-restamp :
    (box : Secretbox) (raw timestamp : Bytes) (key : Base byte_type) (p : Bytes) (t : ℕ)
    → size key ≡ 32
    → length timestamp ≡ 8
    → decrypt_raw box raw key ≡ ok (p, t)
    → decrypt_raw box (restamp raw timestamp) key ≡ ok (p, read_u64_be timestamp)
decrypt_raw-restamp box raw timestamp key p t sized stamp e =
    let opens = decrypt_raw-Opens box raw key p t sized e in
    let rest : Bytes = opens.rest in
    let long : 48 ≤ length rest = opens.long in
    rw (
      opens.versioned,
      restamp-layout rest timestamp,
      decrypt_raw-layout box timestamp (take 24 (drop 8 rest)) (drop 32 rest) key stamp
          (omega (arith, length-take 24 (drop 8 rest), length-drop 8 rest))
          (omega (arith, length-drop 32 rest)) sized,
      opens.authentic,
    )

-- Bytes that open under a key of 32 bytes, however old, are made to pass any time to live: with the
-- present time written over the timestamp, the token of these bytes decrypts to the same plaintext
-- under every time to live, 0 included (the clock's tolerance not wrapping).
pub decrypt-restamp :
    (box : Secretbox) {codec : Codec} (coding : CodecLaws codec) (env : Environment) (raw : Bytes)
    (key : Base byte_type) (plaintext : Bytes) (ts : ℕ) (ttl : ℤ)
    → size key ≡ 32
    → now_secs env + 60 < u64_mod
    → decrypt_raw box raw key ≡ ok (plaintext, ts)
    → decrypt box codec env
        (Base64.encode codec (restamp raw (write_u64_be (now_secs env))) original)
        key
        (some ttl)
      ≡ ok plaintext
decrypt-restamp box {codec} coding env raw key plaintext ts ttl sized clock e =
    let now : ℕ = now_secs env in
    let stamp = read_u64_be-write_u64_be now (to_u64-lt env.system_clock_secs) in
    let fresh : Bytes = restamp raw (write_u64_be now) in
    let opened : decrypt_raw box fresh key ≡ ok (plaintext, now) =
      decrypt_raw-restamp box raw (write_u64_be now) key plaintext ts sized stamp.0 e
      ∙ ap (λ (t : ℕ). ok (plaintext, t)) stamp.1 in
    decrypt_ttl box codec env (Base64.encode codec fresh original) fresh key ttl plaintext now clock
      sized (decode-encode coding fresh original) opened
    ∙ rw (le→ltb (now + 60) now (omega arith), le→ltb (now + to_u64 ttl) now (omega arith))
