-- ===== src/Sodium/Kem.antt =====
-- crypto_kem (X-Wing) and crypto_kem_mlkem768: key encapsulation.
use sylvite.Common.{ℕ, ◌≡◌, Option, some, Bytes, length}

-- `none` is a nonzero status.
pub record Kem : Type 0 where
  pub publickeybytes : ℕ
  pub secretkeybytes : ℕ
  pub sharedsecretbytes : ℕ
  pub ciphertextbytes : ℕ
  -- random bytes to the public and the secret key
  pub keypair : (ℕ → Bytes) → Option (Bytes × Bytes)
  -- random bytes and public key to the ciphertext and the shared secret
  pub enc : (ℕ → Bytes) → Bytes → Option (Bytes × Bytes)
  -- ciphertext and secret key to the shared secret
  pub dec : Bytes → Bytes → Option Bytes

pub record KemLaws (s : Kem) : Type 0 where
  pub keypair_total : (rnd : ℕ → Bytes) → (r : Bytes × Bytes) × (s.keypair rnd ≡ some r)
  pub length-keypair :
      (rnd : ℕ → Bytes) (pk sk : Bytes)
      → s.keypair rnd ≡ some (pk, sk)
      → (length pk ≡ s.publickeybytes) × (length sk ≡ s.secretkeybytes)
  pub enc-keypair :
      (rnd rnd' : ℕ → Bytes) (pk sk : Bytes)
      → s.keypair rnd ≡ some (pk, sk)
      → (r : Bytes × Bytes) × (s.enc rnd' pk ≡ some r)
  pub length-enc :
      (rnd : ℕ → Bytes) (pk ct ss : Bytes)
      → s.enc rnd pk ≡ some (ct, ss)
      → (length ct ≡ s.ciphertextbytes) × (length ss ≡ s.sharedsecretbytes)
  pub dec-enc :
      (rnd rnd' : ℕ → Bytes) (pk sk ct ss : Bytes)
      → s.keypair rnd ≡ some (pk, sk)
      → s.enc rnd' pk ≡ some (ct, ss)
      → s.dec ct sk ≡ some ss
