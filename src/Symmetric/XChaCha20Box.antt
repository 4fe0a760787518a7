-- ===== src/Symmetric/XChaCha20Box.antt =====
-- symmetric/xchacha20box.hpp: the AEAD with its nonce in front of the ciphertext.
pub mod RoundTrip
use sylvite.Common.{
  ℕ, ◌+◌, ◌-◌, Bool, not, Bytes, length, ltb, ◌==◌, Outcome, ok, ◌>>=◌, ◌>>◌, throw_if, or_throw,
  read_at, write_at, logic_error, runtime_error,
}
use sylvite.Sodium.Environment.{Environment}
use sylvite.Sodium.Aead.{Aead, crypto_aead_npubbytes, crypto_aead_abytes, crypto_aead_keybytes}
use sylvite.Internal.Base.{Base, byte_type, size, of_size}
use sylvite.Types.Nonce.{of_length, random_generate}

abbrev pub nonce_size : ℕ
nonce_size = crypto_aead_npubbytes

abbrev pub mac_size : ℕ
mac_size = crypto_aead_abytes

abbrev pub overhead : ℕ
overhead = nonce_size + mac_size

module _ (aead : Aead) where
  unfoldable pub encrypt : Environment → Bytes → Base byte_type → Bytes → Outcome (Base byte_type)
  encrypt env plaintext key aad = do
    throw_if (not (size key == crypto_aead_keybytes)) logic_error
    let nonce = random_generate env (of_length nonce_size)
    n ← read_at 0 nonce_size nonce.buffer.vec
    out ← write_at 0 n (of_size byte_type (overhead + length plaintext)).vec
    k ← read_at 0 crypto_aead_keybytes key.vec
    c ← or_throw (aead.crypto_aead_encrypt plaintext aad n k) runtime_error
    out' ← write_at nonce_size c out
    ok (record { vec = out' })

  unfoldable pub decrypt : Base byte_type → Base byte_type → Bytes → Outcome Bytes
  decrypt ciphertext key aad = do
    throw_if (ltb (size ciphertext) overhead) logic_error
    throw_if (not (size key == crypto_aead_keybytes)) logic_error
    n ← read_at 0 nonce_size ciphertext.vec
    c ← read_at nonce_size (size ciphertext - nonce_size) ciphertext.vec
    k ← read_at 0 crypto_aead_keybytes key.vec
    or_throw (aead.crypto_aead_decrypt c aad n k) logic_error
