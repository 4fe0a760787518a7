-- ===== src/Kdf/Hkdf.antt =====
-- kdf/hkdf.hpp: a subkey from a master key.
pub mod Checks
use sylvite.Common.{
  ℕ, ◌≤◌, ◌≡◌, ◌↔◌, Bool, true, false, not, ◌||◌, Bytes, ltb, ltb→ge, le→ltb, ◌==◌, eq→==,
  Bool-cases, inl, inr, some, Outcome, ok, ◌>>=◌, ◌>>◌, throw_if, or_throw, or_throw-eq-ok, read_at,
  read_at_whole, logic_error, derivation_error, sym, ap, ◌∙◌, length, arith,
}
use sylvite.Sodium.Derivation.{Derivation}
use sylvite.Internal.Base.{Base, byte_type, size}
use sylvite.Internal.Base.Buffers.{size-bytes, size-of_size}
use sylvite.Types.Key.{new, from_vector}

module _ (sodium : Derivation) where
  -- The output is as long as the new key, whose bytes it replaces.
  unfoldable pub derive_subkey : Base byte_type → ℕ → ℕ → Bytes → Outcome (Base byte_type)
  derive_subkey m_key size_ key_id context = do
    throw_if (not (size m_key == 32)) logic_error
    throw_if (ltb size_ 16 || ltb 64 size_) logic_error
    master ← read_at 0 32 m_key.vec
    out ←
        or_throw (sodium.crypto_kdf_derive_from_key (size (new size_)) key_id context master)
          derivation_error
    ok (from_vector out)
