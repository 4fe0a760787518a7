-- ===== src/Utils/Base64.antt =====
-- utils/base64.hpp, namespace Base64.
pub mod RoundTrip
use sylvite.Common.{
  ℕ, ◌+◌, ◌*◌, ◌/◌, true, false, Bool, [], ◌∷◌, Bytes, length, ◌==◌, if◌then◌else◌, Outcome, ok,
  or_throw, decodification_error,
}
use sylvite.Sodium.Codec.{Codec}
use sylvite.Utils.Variant.{Variant}

-- `if (!out_.empty() && out_.back() == '\0') out_.pop_back();`
unfoldable pub drop_terminator : Bytes → Bytes
drop_terminator [] = []
drop_terminator (c ∷ []) = if c == 0 then [] else c ∷ []
drop_terminator (c ∷ d ∷ rest) = c ∷ drop_terminator (d ∷ rest)

-- `std::size_t max_bin_len_ = (view_.size() / 4) * 3 + 2;`
unfoldable pub max_bin_len : ℕ → ℕ
max_bin_len size = size / 4 * 3 + 2

module _ (codec : Codec) where
  unfoldable pub encode : Bytes → Variant → Bytes
  unfolding drop_terminator
  encode bytes variant = drop_terminator (
      codec.sodium_bin2base64 (codec.sodium_base64_encoded_len (length bytes) variant) bytes
        variant)

  -- The buffer is cut to the number of bytes that libsodium reports.
  unfoldable pub decode : Bytes → Variant → Outcome Bytes
  unfolding max_bin_len
  decode view variant =
      or_throw (codec.sodium_base642bin (max_bin_len (length view)) view variant)
        decodification_error
