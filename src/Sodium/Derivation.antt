-- ===== src/Sodium/Derivation.antt =====
-- crypto_kdf_derive_from_key, and crypto_pwhash with Argon2id 1.3 and its limits.
use sylvite.Common.{ℕ, ◌≤◌, ◌≡◌, Option, some, Bytes, length}
use sylvite.Kdf.Profile.{Preset}

abbrev pub crypto_pwhash_argon2id_saltbytes : ℕ
crypto_pwhash_argon2id_saltbytes = 16

-- `none` is a nonzero status.
pub record Derivation : Type 0 where
  -- size of the output, identifier, context and master key to the contents of the output
  pub crypto_kdf_derive_from_key : ℕ → ℕ → Bytes → Bytes → Option Bytes
  pub crypto_pwhash_opslimit : Preset → ℕ
  pub crypto_pwhash_memlimit : Preset → ℕ
  -- size of the output, password, salt, operations and memory
  pub crypto_pwhash : ℕ → Bytes → Bytes → ℕ → ℕ → Option Bytes

-- Subkeys can always be derived with the sizes that are documented; a password hash can fail for want of
-- memory.
pub record DerivationLaws (s : Derivation) : Type 0 where
  pub kdf_total :
      (n id : ℕ) (context master : Bytes)
      → 16 ≤ n
      → n ≤ 64
      → length context ≡ 8
      → length master ≡ 32
      → (out : Bytes) × (s.crypto_kdf_derive_from_key n id context master ≡ some out)
  pub length-kdf :
      (n id : ℕ) (context master out : Bytes)
      → s.crypto_kdf_derive_from_key n id context master ≡ some out
      → length out ≡ n
  pub length-pwhash :
      (n : ℕ) (password salt : Bytes) (ops ram : ℕ) (out : Bytes)
      → s.crypto_pwhash n password salt ops ram ≡ some out
      → length out ≡ n
