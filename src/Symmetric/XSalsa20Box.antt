-- ===== src/Symmetric/XSalsa20Box.antt =====
-- symmetric/xsalsa20box.hpp: crypto_secretbox with its nonce in front of the ciphertext.
pub mod RoundTrip
use sylvite.Common.{
  ℕ, ◌+◌, ◌-◌, Bool, true, false, not, [], ◌∷◌, Bytes, length, ltb, ◌==◌, Outcome, ok, ◌>>=◌, ◌>>◌,
  throw_if, or_throw, read_at, write_at, logic_error, runtime_error,
}
use sylvite.Sodium.Environment.{Environment}
use sylvite.Sodium.Secretbox.{
  Secretbox, crypto_secretbox_noncebytes, crypto_secretbox_macbytes, crypto_secretbox_keybytes,
}
use sylvite.Internal.Base.{Base, byte_type, size, of_size}
use sylvite.Types.Nonce.{of_length, random_generate}

abbrev pub nonce_size : ℕ
nonce_size = crypto_secretbox_noncebytes

abbrev pub mac_size : ℕ
mac_size = crypto_secretbox_macbytes

abbrev pub overhead : ℕ
overhead = nonce_size + mac_size

abbrev pub key_size : ℕ
key_size = crypto_secretbox_keybytes

-- `aad_.empty()`
abbrev pub is_empty : Bytes → Bool
is_empty [] = true
is_empty (b ∷ rest) = false

module _ (box : Secretbox) where
  unfoldable pub encrypt : Environment → Bytes → Base byte_type → Bytes → Outcome (Base byte_type)
  encrypt env plaintext key aad = do
    throw_if (not (size key == key_size)) logic_error
    throw_if (not (is_empty aad)) logic_error
    let nonce = random_generate env (of_length nonce_size)
    n ← read_at 0 nonce_size nonce.buffer.vec
    out ← write_at 0 n (of_size byte_type (overhead + length plaintext)).vec
    k ← read_at 0 crypto_secretbox_keybytes key.vec
    c ← or_throw (box.crypto_secretbox_easy plaintext n k) runtime_error
    out' ← write_at nonce_size c out
    ok (record { vec = out' })

  unfoldable pub decrypt : Base byte_type → Base byte_type → Outcome Bytes
  decrypt ciphertext key = do
    throw_if (ltb (size ciphertext) overhead) logic_error
    throw_if (not (size key == key_size)) logic_error
    n ← read_at 0 nonce_size ciphertext.vec
    c ← read_at nonce_size (size ciphertext - nonce_size) ciphertext.vec
    k ← read_at 0 crypto_secretbox_keybytes key.vec
    or_throw (box.crypto_secretbox_open_easy c n k) logic_error
