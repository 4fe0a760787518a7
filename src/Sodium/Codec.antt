-- ===== src/Sodium/Codec.antt =====
-- libsodium's Base64 and hexadecimal codecs, with no characters to ignore.
use sylvite.Common.{ℕ, ◌+◌, ◌*◌, ◌/◌, ◌≤◌, ◌≡◌, Option, some, [], ◌∷◌, ◌++◌, Bytes, length}
use sylvite.Utils.Variant.{Variant, original, original_no_padding, url_safe, url_safe_no_padding}

-- The number of characters for n bytes, with no terminator: RFC 4648, with and without padding.
abbrev pub text_size : ℕ → Variant → ℕ
text_size n original = (n + 2) / 3 * 4
text_size n original_no_padding = (n * 4 + 2) / 3
text_size n url_safe = (n + 2) / 3 * 4
text_size n url_safe_no_padding = (n * 4 + 2) / 3

pub record Codec : Type 0 where
  pub sodium_base64_encoded_len : ℕ → Variant → ℕ
  -- size of the output, data and variant to the contents of the output
  pub sodium_bin2base64 : ℕ → Bytes → Variant → Bytes
  -- size of the output, text and variant to the bytes written; `none` is a nonzero status
  pub sodium_base642bin : ℕ → Bytes → Variant → Option Bytes
  pub sodium_bin2hex : ℕ → Bytes → Bytes
  pub sodium_hex2bin : ℕ → Bytes → Option Bytes

-- The encoders write the text and a terminator, and a decoder with room enough inverts them.
pub record CodecLaws (s : Codec) : Type 0 where
  pub base64_text : Variant → Bytes → Bytes
  pub encoded_len_lem : (n : ℕ) (v : Variant) → s.sodium_base64_encoded_len n v ≡ text_size n v + 1
  pub length-base64_text :
      (v : Variant) (bytes : Bytes) → length (base64_text v bytes) ≡ text_size (length bytes) v
  pub bin2base64_lem :
      (v : Variant) (bytes : Bytes)
      → s.sodium_bin2base64 (text_size (length bytes) v + 1) bytes v ≡ base64_text v bytes ++ 0 ∷ []
  pub base642bin_lem :
      (v : Variant) (bytes : Bytes) (room : ℕ)
      → length bytes ≤ room
      → s.sodium_base642bin room (base64_text v bytes) v ≡ some bytes
  pub hex_text : Bytes → Bytes
  pub length-hex_text : (bytes : Bytes) → length (hex_text bytes) ≡ length bytes * 2
  pub bin2hex_lem :
      (bytes : Bytes) → s.sodium_bin2hex (length bytes * 2 + 1) bytes ≡ hex_text bytes ++ 0 ∷ []
  pub hex2bin_lem :
      (bytes : Bytes) (room : ℕ)
      → length bytes ≤ room
      → s.sodium_hex2bin room (hex_text bytes) ≡ some bytes
