-- ===== src/Sodium/Signing.antt =====
-- crypto_sign: Ed25519 with detached signatures.
use sylvite.Common.{ℕ, ◌≡◌, Bool, true, Option, some, Bytes, length}

abbrev pub crypto_sign_bytes : ℕ
crypto_sign_bytes = 64

abbrev pub crypto_sign_publickeybytes : ℕ
crypto_sign_publickeybytes = 32

abbrev pub crypto_sign_secretkeybytes : ℕ
crypto_sign_secretkeybytes = 64

-- `none` is a nonzero status.
pub record Signing : Type 0 where
  -- random bytes to the public and the secret key
  pub crypto_sign_keypair : (ℕ → Bytes) → Bytes × Bytes
  -- secret key to public key
  pub crypto_sign_sk_to_pk : Bytes → Option Bytes
  -- message and secret key to the signature
  pub crypto_sign_detached : Bytes → Bytes → Option Bytes
  -- signature, message and public key: a zero status
  pub crypto_sign_verify_detached : Bytes → Bytes → Bytes → Bool

-- `IsPair pk sk`: the public key belongs to the secret key.
pub record SigningLaws (s : Signing) : Type 1 where
  pub IsPair : Bytes → Bytes → Type 0
  pub keypair-IsPair :
      (rnd : ℕ → Bytes) → IsPair (s.crypto_sign_keypair rnd).0 (s.crypto_sign_keypair rnd).1
  pub IsPair-length :
      (pk sk : Bytes)
      → IsPair pk sk
      → (length pk ≡ crypto_sign_publickeybytes) × (length sk ≡ crypto_sign_secretkeybytes)
  pub sk_to_pk-IsPair : (pk sk : Bytes) → IsPair pk sk → s.crypto_sign_sk_to_pk sk ≡ some pk
  pub detached_total :
      (m pk sk : Bytes) → IsPair pk sk → (sig : Bytes) × (s.crypto_sign_detached m sk ≡ some sig)
  pub length-detached :
      (m sk sig : Bytes) → s.crypto_sign_detached m sk ≡ some sig → length sig ≡ crypto_sign_bytes
  pub verify-detached :
      (m pk sk sig : Bytes)
      → IsPair pk sk
      → s.crypto_sign_detached m sk ≡ some sig
      → s.crypto_sign_verify_detached sig m pk ≡ true
