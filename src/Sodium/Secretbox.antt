-- ===== src/Sodium/Secretbox.antt =====
-- crypto_secretbox: XSalsa20-Poly1305 with no associated data.
use sylvite.Common.{ℕ, ◌+◌, ◌≤◌, ◌≡◌, Option, some, Bytes, length}

abbrev pub crypto_secretbox_noncebytes : ℕ
crypto_secretbox_noncebytes = 24

abbrev pub crypto_secretbox_macbytes : ℕ
crypto_secretbox_macbytes = 16

abbrev pub crypto_secretbox_keybytes : ℕ
crypto_secretbox_keybytes = 32

-- `none` is a nonzero status.
pub record Secretbox : Type 0 where
  pub crypto_secretbox_messagebytes_max : ℕ
  -- message, nonce and key to the MAC and the ciphertext
  pub crypto_secretbox_easy : Bytes → Bytes → Bytes → Option Bytes
  -- MAC and ciphertext, nonce and key to the message
  pub crypto_secretbox_open_easy : Bytes → Bytes → Bytes → Option Bytes

pub record SecretboxLaws (s : Secretbox) : Type 0 where
  pub easy_total :
      (m n k : Bytes)
      → length m ≤ s.crypto_secretbox_messagebytes_max
      → (c : Bytes) × (s.crypto_secretbox_easy m n k ≡ some c)
  pub length-easy :
      (m n k c : Bytes)
      → s.crypto_secretbox_easy m n k ≡ some c
      → length c ≡ crypto_secretbox_macbytes + length m
  pub open-easy :
      (m n k c : Bytes)
      → s.crypto_secretbox_easy m n k ≡ some c
      → s.crypto_secretbox_open_easy c n k ≡ some m
