-- ===== src/Sodium/Aead.antt =====
-- crypto_aead_xchacha20poly1305_ietf: XChaCha20-Poly1305 with associated data.
use sylvite.Common.{ℕ, ◌+◌, ◌≤◌, ◌≡◌, Option, some, Bytes, length}

abbrev pub crypto_aead_npubbytes : ℕ
crypto_aead_npubbytes = 24

abbrev pub crypto_aead_abytes : ℕ
crypto_aead_abytes = 16

abbrev pub crypto_aead_keybytes : ℕ
crypto_aead_keybytes = 32

-- `none` is a nonzero status.
pub record Aead : Type 0 where
  pub crypto_aead_messagebytes_max : ℕ
  -- message, associated data, nonce and key to the ciphertext and the MAC
  pub crypto_aead_encrypt : Bytes → Bytes → Bytes → Bytes → Option Bytes
  -- ciphertext and MAC, associated data, nonce and key to the message
  pub crypto_aead_decrypt : Bytes → Bytes → Bytes → Bytes → Option Bytes

pub record AeadLaws (s : Aead) : Type 0 where
  pub encrypt_total :
      (m ad n k : Bytes)
      → length m ≤ s.crypto_aead_messagebytes_max
      → (c : Bytes) × (s.crypto_aead_encrypt m ad n k ≡ some c)
  pub length-encrypt :
      (m ad n k c : Bytes)
      → s.crypto_aead_encrypt m ad n k ≡ some c
      → length c ≡ crypto_aead_abytes + length m
  pub decrypt-encrypt :
      (m ad n k c : Bytes)
      → s.crypto_aead_encrypt m ad n k ≡ some c
      → s.crypto_aead_decrypt c ad n k ≡ some m
