-- ===== src/Sodium/GenericHash.antt =====
-- crypto_generichash: BLAKE2b with a size of the output and an optional key.
use sylvite.Common.{ℕ, ◌≤◌, ◌≡◌, ◌⊎◌, Option, some, [], Bytes, length}
use sylvite.Sodium.Streaming.{Streaming, StreamingLaws}

abbrev pub crypto_generichash_bytes_min : ℕ
crypto_generichash_bytes_min = 16

abbrev pub crypto_generichash_bytes_max : ℕ
crypto_generichash_bytes_max = 64

abbrev pub crypto_generichash_keybytes_min : ℕ
crypto_generichash_keybytes_min = 16

abbrev pub crypto_generichash_keybytes_max : ℕ
crypto_generichash_keybytes_max = 64

-- `none` is a nonzero status; an empty key is no key.
pub record GenericHash : Type 1 where
  -- size of the output, message and key
  pub crypto_generichash : ℕ → Bytes → Bytes → Option Bytes
  -- the state, and the output that it gives when a size is asked for
  pub parts : ℕ → Streaming
  -- key and size of the output
  pub init : Bytes → (n : ℕ) → Option (parts n).State

-- The sizes that libsodium documents.
abbrev pub IsSized : ℕ → Bytes → Type 0
IsSized n key = (16 ≤ n) × (n ≤ 64) × ((length key ≡ 0) ⊎ ((16 ≤ length key) × (length key ≤ 64)))

pub record GenericHashLaws (s : GenericHash) : Type 1 where
  pub hash_total :
      (n : ℕ) (m key : Bytes)
      → IsSized n key
      → (out : Bytes) × (s.crypto_generichash n m key ≡ some out)
  pub parts_laws :
      (n : ℕ) (key : Bytes)
      → IsSized n key
      → StreamingLaws (s.parts n) (λ m. s.crypto_generichash n m key)
  pub init-Absorbed :
      (n : ℕ) (key : Bytes) (sized : IsSized n key)
      → (st : (s.parts n).State) × (s.init key n ≡ some st)
        × (parts_laws n key sized).Absorbed [] st
