-- ===== src/Utils/Base64/RoundTrip.antt =====
-- utils/base64.hpp: the decoder's buffer is large enough, and decoding inverts encoding.
use sylvite.Common.{ℕ, ◌≤◌, ◌≡◌, refl, ap, [], ◌∷◌, ◌++◌, Bytes, length, ok, arith}
use sylvite.Sodium.Codec.{Codec, CodecLaws, text_size}
use sylvite.Utils.Variant.{Variant, original, original_no_padding, url_safe, url_safe_no_padding}
use sylvite.Utils.Base64.{drop_terminator, max_bin_len, encode, decode}

pub drop_terminator-append : (text : Bytes) → drop_terminator (text ++ 0 ∷ []) ≡ text
unfolding drop_terminator
drop_terminator-append [] = refl
drop_terminator-append (c ∷ []) = refl
drop_terminator-append (c ∷ d ∷ text) = ap (◌∷◌ c) (drop_terminator-append (d ∷ text))

-- For the text of n bytes in any variant, without a terminator, the decoder's buffer holds at least
-- n bytes.
pub max_bin_len-ge : (n : ℕ) (v : Variant) → n ≤ max_bin_len (text_size n v)
unfolding max_bin_len
max_bin_len-ge n original = omega arith
max_bin_len-ge n original_no_padding = omega arith
max_bin_len-ge n url_safe = omega arith
max_bin_len-ge n url_safe_no_padding = omega arith

module _ {codec : Codec} (laws : CodecLaws codec) where
  -- The encoding is libsodium's text with its terminator taken off.
  pub encode-text : (bytes : Bytes) (v : Variant) → encode codec bytes v ≡ laws.base64_text v bytes
  unfolding encode
  encode-text bytes v =
      rw (laws.encoded_len_lem (length bytes) v, laws.bin2base64_lem v bytes)
        (drop_terminator-append (laws.base64_text v bytes))

  -- In every variant, decoding an encoded buffer of any size gives the buffer back.
  pub decode-encode :
      (bytes : Bytes) (v : Variant) → decode codec (encode codec bytes v) v ≡ ok bytes
  unfolding decode
  decode-encode bytes v =
      let room : length bytes ≤ max_bin_len (length (laws.base64_text v bytes)) =
        rw (laws.length-base64_text v bytes) (max_bin_len-ge (length bytes) v) in
      rw (encode-text bytes v, laws.base642bin_lem v bytes _ room)
