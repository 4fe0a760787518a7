-- ===== src/Symmetric/XChaCha20.antt =====
-- symmetric/xchacha20.hpp: the AEAD on a nonce that the caller keeps.
pub mod RoundTrip
pub mod NonceReuse
use sylvite.Common.{
  ℕ, ◌+◌, ◌-◌, Bool, true, false, not, ◌&&◌, Bytes, length, ltb, ◌==◌, if◌then◌else◌, Option, none,
  some, Outcome, ok, throw, undefined, ◌>>=◌, ◌>>◌, throw_if, or_throw, read_at, logic_error,
  runtime_error,
}
use sylvite.Sodium.Environment.{Environment}
use sylvite.Sodium.Aead.{Aead, crypto_aead_npubbytes, crypto_aead_abytes, crypto_aead_keybytes}
use sylvite.Internal.Base.{Base, byte_type, size, empty}
use sylvite.Types.Nonce.{Generation, lazy, eager, Nonce, modify, random_generate_sized}

abbrev pub nonce_size : ℕ
nonce_size = crypto_aead_npubbytes

abbrev pub mac_size : ℕ
mac_size = crypto_aead_abytes

abbrev pub overhead : ℕ
overhead = nonce_size + mac_size

-- An empty lazy nonce is generated when it is first used.
pub generated : Environment → {M : Generation} → Nonce M → Nonce M
generated env {M = lazy} nonce =
    if empty nonce.buffer then random_generate_sized env nonce crypto_aead_npubbytes else nonce
generated env {M = eager} nonce = nonce

-- The nonce is marked as used only after the call has succeeded.
pub marked :
    {M : Generation} → Nonce M → Outcome (Base byte_type) → Nonce M × Outcome (Base byte_type)
marked nonce (ok ct) = (modify nonce true, ok ct)
marked nonce (throw e) = (nonce, throw e)
marked nonce undefined = (nonce, undefined)

module _ (aead : Aead) where
  -- The call of libsodium, which reads 24 bytes of the nonce and 32 of the key.
  pub seal : Bytes → Base byte_type → Bytes → Bytes → Outcome (Base byte_type)
  seal plaintext key nonce aad = do
    n ← read_at 0 crypto_aead_npubbytes nonce
    k ← read_at 0 crypto_aead_keybytes key.vec
    ct ← or_throw (aead.crypto_aead_encrypt plaintext aad n k) runtime_error
    ok (record { vec = ct })

  -- The nonce object after the call, and the ciphertext or the exception.
  unfoldable pub encrypt :
      Environment
      → {M : Generation} → Bytes
      → Base byte_type
      → Nonce M
      → Bytes
      → Nonce M × Outcome (Base byte_type)
  unfolding generated seal marked
  encrypt env plaintext key nonce aad =
      if nonce.used
      then (nonce, throw logic_error)
      else let nonce' = generated env nonce in
        if not (size nonce'.buffer == crypto_aead_npubbytes)
        then (nonce', throw logic_error)
        else marked nonce' (seal plaintext key nonce'.buffer.vec aad)

  unfoldable pub decrypt :
      {M : Generation} → Base byte_type → Base byte_type → Nonce M → Bytes → Outcome Bytes
  decrypt ciphertext key nonce aad = do
    throw_if (ltb (size ciphertext) crypto_aead_abytes) runtime_error
    n ← read_at 0 crypto_aead_npubbytes nonce.buffer.vec
    k ← read_at 0 crypto_aead_keybytes key.vec
    or_throw (aead.crypto_aead_decrypt ciphertext.vec aad n k) runtime_error
