-- ===== src/Sodium/Auth.antt =====
-- crypto_auth_hmacsha256 and crypto_auth_hmacsha512, in one call and in parts.
use sylvite.Common.{ℕ, ◌≡◌, ◌↔◌, Bool, true, Option, some, [], Bytes, length}
use sylvite.Sodium.Streaming.{Streaming, StreamingLaws}

pub data Algorithm : Type 0 where
  sha256 sha512 : Algorithm

abbrev pub crypto_auth_bytes : Algorithm → ℕ
crypto_auth_bytes sha256 = 32
crypto_auth_bytes sha512 = 64

abbrev pub crypto_auth_keybytes : ℕ
crypto_auth_keybytes = 32

-- `none` is a nonzero status.
pub record Auth (a : Algorithm) : Type 1 where
  -- message and key to the tag
  pub crypto_auth : Bytes → Bytes → Option Bytes
  -- tag, message and key: a zero status
  pub crypto_auth_verify : Bytes → Bytes → Bytes → Bool
  pub parts : Streaming
  -- a key of any size
  pub init : Bytes → Option parts.State

-- A tag in one call and its check ask for a key of 32 bytes.
pub record AuthLaws {a : Algorithm} (s : Auth a) : Type 1 where
  pub auth_total :
      (m k : Bytes)
      → length k ≡ crypto_auth_keybytes
      → (tag : Bytes) × (s.crypto_auth m k ≡ some tag)
  pub length-auth :
      (m k tag : Bytes) → s.crypto_auth m k ≡ some tag → length tag ≡ crypto_auth_bytes a
  pub verify_iff :
      (tag m k : Bytes)
      → length k ≡ crypto_auth_keybytes
      → length tag ≡ crypto_auth_bytes a
      → (s.crypto_auth_verify tag m k ≡ true) ↔ (s.crypto_auth m k ≡ some tag)
  pub parts_laws :
      (k : Bytes) → length k ≡ crypto_auth_keybytes → StreamingLaws s.parts (λ m. s.crypto_auth m k)
  pub init-Absorbed :
      (k : Bytes) (sized : length k ≡ crypto_auth_keybytes)
      → (st : s.parts.State) × (s.init k ≡ some st) × (parts_laws k sized).Absorbed [] st
