-- ===== src/Utils/Hex/RoundTrip.antt =====
-- utils/base64.hpp: hexadecimal text has two characters for a byte, and decoding inverts encoding.
use sylvite.Common.{◌*◌, ◌/◌, ◌≤◌, ◌≡◌, ◌∙◌, ap, Bytes, length, ok, arith}
use sylvite.Sodium.Codec.{Codec, CodecLaws}
use sylvite.Utils.Base64.RoundTrip.{drop_terminator-append}
use sylvite.Utils.Hex.{encode, decode}

module _ {codec : Codec} (laws : CodecLaws codec) where
  encode-text : (bytes : Bytes) → encode codec bytes ≡ laws.hex_text bytes
  unfolding encode
  encode-text bytes = rw (laws.bin2hex_lem bytes) (drop_terminator-append (laws.hex_text bytes))

  -- Hexadecimal text has two characters for each byte, and decoding it gives the buffer back.
  pub decode-encode_hex :
      (bytes : Bytes)
      → (length (encode codec bytes) ≡ length bytes * 2)
        × (decode codec (encode codec bytes) ≡ ok bytes)
  unfolding decode
  decode-encode_hex bytes =
      let room : length bytes ≤ length (laws.hex_text bytes) / 2 =
        omega (arith, laws.length-hex_text bytes) in
      (
        ap length (encode-text bytes) ∙ laws.length-hex_text bytes,
        rw (encode-text bytes, laws.hex2bin_lem bytes _ room),
      )
