-- ===== src/Sodium/Curve.antt =====
-- crypto_box on Curve25519, with crypto_box_seal and crypto_scalarmult_base.
use sylvite.Common.{ℕ, ◌+◌, ◌≤◌, ◌≡◌, Option, some, Bytes, length}

abbrev pub crypto_box_noncebytes : ℕ
crypto_box_noncebytes = 24

abbrev pub crypto_box_macbytes : ℕ
crypto_box_macbytes = 16

abbrev pub crypto_box_publickeybytes : ℕ
crypto_box_publickeybytes = 32

abbrev pub crypto_box_secretkeybytes : ℕ
crypto_box_secretkeybytes = 32

abbrev pub crypto_box_sealbytes : ℕ
crypto_box_sealbytes = 48

-- `none` is a nonzero status.
pub record Curve : Type 0 where
  pub crypto_box_messagebytes_max : ℕ
  -- random bytes to the public and the secret key
  pub crypto_box_keypair : (ℕ → Bytes) → Bytes × Bytes
  -- secret key to public key
  pub crypto_scalarmult_base : Bytes → Option Bytes
  -- message, nonce, recipient's public key and sender's secret key to the MAC and the ciphertext
  pub crypto_box_easy : Bytes → Bytes → Bytes → Bytes → Option Bytes
  -- MAC and ciphertext, nonce, sender's public key and recipient's secret key to the message
  pub crypto_box_open_easy : Bytes → Bytes → Bytes → Bytes → Option Bytes
  -- random bytes, message and recipient's public key
  pub crypto_box_seal : (ℕ → Bytes) → Bytes → Bytes → Option Bytes
  -- sealed message, public key and secret key
  pub crypto_box_seal_open : Bytes → Bytes → Bytes → Option Bytes

-- `IsPair pk sk`: the public key belongs to the secret key.
pub record CurveLaws (s : Curve) : Type 1 where
  pub IsPair : Bytes → Bytes → Type 0
  pub keypair-IsPair :
      (rnd : ℕ → Bytes) → IsPair (s.crypto_box_keypair rnd).0 (s.crypto_box_keypair rnd).1
  pub IsPair-length :
      (pk sk : Bytes)
      → IsPair pk sk
      → (length pk ≡ crypto_box_publickeybytes) × (length sk ≡ crypto_box_secretkeybytes)
  pub scalarmult_base-IsPair :
      (pk sk : Bytes) → IsPair pk sk → s.crypto_scalarmult_base sk ≡ some pk
  pub easy_total :
      (m n pk_a sk_a pk_b sk_b : Bytes)
      → IsPair pk_a sk_a
      → IsPair pk_b sk_b
      → length m ≤ s.crypto_box_messagebytes_max
      → (c : Bytes) × (s.crypto_box_easy m n pk_b sk_a ≡ some c)
  pub length-easy :
      (m n pk sk c : Bytes)
      → s.crypto_box_easy m n pk sk ≡ some c
      → length c ≡ crypto_box_macbytes + length m
  pub open-easy :
      (m n pk_a sk_a pk_b sk_b c : Bytes)
      → IsPair pk_a sk_a
      → IsPair pk_b sk_b
      → s.crypto_box_easy m n pk_b sk_a ≡ some c
      → s.crypto_box_open_easy c n pk_a sk_b ≡ some m
  pub seal_total :
      (rnd : ℕ → Bytes) (m pk sk : Bytes)
      → IsPair pk sk
      → length m ≤ s.crypto_box_messagebytes_max
      → (c : Bytes) × (s.crypto_box_seal rnd m pk ≡ some c)
  pub length-seal :
      (rnd : ℕ → Bytes) (m pk c : Bytes)
      → s.crypto_box_seal rnd m pk ≡ some c
      → length c ≡ crypto_box_sealbytes + length m
  pub open-seal :
      (rnd : ℕ → Bytes) (m pk sk c : Bytes)
      → IsPair pk sk
      → s.crypto_box_seal rnd m pk ≡ some c
      → s.crypto_box_seal_open c pk sk ≡ some m
