-- ===== src/Hash/Sha256/Text.antt =====
-- hash/hash.hpp: the hexadecimal text of a hash.
use sylvite.Common.{ℕ, ◌≡◌, ◌*◌, ap, ◌∙◌, Bytes, length, ok}
use sylvite.Sodium.Codec.{Codec, CodecLaws}
use sylvite.Sodium.Hasher.{Family, Hasher, HasherLaws, crypto_hash_bytes}
use sylvite.Utils.Hex
use sylvite.Utils.Hex.RoundTrip.{decode-encode_hex}
use sylvite.Hash.Sha256.{digest, hexdigest}

module _ {f : Family} {hasher : Hasher f} (laws : HasherLaws hasher) {codec : Codec}
    (coding : CodecLaws codec) where
  -- `hexdigest` returns a text of two characters for each byte of the hash, and decoding the text gives
  -- what `digest` returns.
  pub decode-hexdigest :
      (input : Bytes)
      → (text : Bytes) × (hexdigest hasher codec input ≡ ok text)
        × (length text ≡ crypto_hash_bytes f * 2)
        × (Hex.decode codec text ≡ digest hasher input)
  unfolding hexdigest digest
  decode-hexdigest input =
      let (out, hashed) = laws.hash_total input in
      let (size, decoded) = decode-encode_hex coding out in
      (
        Hex.encode codec out,
        rw hashed,
        size ∙ ap (λ (n : ℕ). n * 2) (laws.length-hash input out hashed),
        rw hashed decoded,
      )
