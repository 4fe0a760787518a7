-- ===== src/Kdf/Argon2id.antt =====
-- kdf/argon2id.hpp: a key from a password.
pub mod Checks
pub mod Passwords
pub mod Login
use sylvite.Common.{
  ℕ, Bool, not, Bytes, ltb, ◌==◌, Outcome, ok, throw, ◌>>=◌, ◌>>◌, throw_if, or_throw, read_at,
  logic_error, runtime_error, std_invalid_argument,
}
use sylvite.Sodium.Derivation.{Derivation, crypto_pwhash_argon2id_saltbytes}
use sylvite.Kdf.Profile.{Preset, Profile, named, unnamed}
use sylvite.Internal.Base.{Base, byte_type, size}
use sylvite.Types.Key.{new, from_vector}

module _ (sodium : Derivation) where
  -- The `switch`: the limits of operations and of memory.
  unfoldable pub limits : Profile → Outcome (ℕ × ℕ)
  limits (named preset) =
      ok (sodium.crypto_pwhash_opslimit preset, sodium.crypto_pwhash_memlimit preset)
  limits (unnamed n) = throw std_invalid_argument

  unfoldable pub derive_key : Bytes → Base byte_type → ℕ → Profile → Outcome (Base byte_type)
  unfolding limits
  derive_key password salt out_len profile = do
    throw_if (ltb out_len 32) logic_error
    throw_if (not (size salt == crypto_pwhash_argon2id_saltbytes)) logic_error
    (ops, ram) ← limits profile
    salt_bytes ← read_at 0 crypto_pwhash_argon2id_saltbytes salt.vec
    out ←
        or_throw (sodium.crypto_pwhash (size (new out_len)) password salt_bytes ops ram)
          runtime_error
    ok (from_vector out)
