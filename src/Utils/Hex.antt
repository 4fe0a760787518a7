-- ===== src/Utils/Hex.antt =====
-- utils/base64.hpp, namespace Hex.
pub mod RoundTrip
use sylvite.Common.{ℕ, ◌+◌, ◌*◌, ◌/◌, Bytes, length, Outcome, or_throw, decodification_error}
use sylvite.Sodium.Codec.{Codec}
use sylvite.Utils.Base64.{drop_terminator}

module _ (codec : Codec) where
  unfoldable pub encode : Bytes → Bytes
  unfolding drop_terminator
  encode bytes = drop_terminator (codec.sodium_bin2hex (length bytes * 2 + 1) bytes)

  unfoldable pub decode : Bytes → Outcome Bytes
  decode view = or_throw (codec.sodium_hex2bin (length view / 2) view) decodification_error
