-- ===== src/Kdf/Hkdf/Checks.antt =====
-- kdf/hkdf.hpp: which calls return a subkey.
use sylvite.Common.{
  ℕ, ◌≤◌, ◌≡◌, ◌↔◌, Bytes, ltb, ltb→ge, le→ltb, ◌==◌, ==_iff, >>=-eq-ok, eq→==, Bool-cases, inl,
  inr, some, ok, ◌>>=◌, or_throw, or_throw-eq-ok, read_at_whole, derivation_error, sym, ap, ◌∙◌,
}
use sylvite.Sodium.Derivation.{Derivation}
use sylvite.Internal.Base.{Base, byte_type, size}
use sylvite.Internal.Base.Buffers.{contents, size-bytes, size-of_size}
use sylvite.Types.Key.{new, from_vector}
use sylvite.Kdf.Hkdf.{derive_subkey}

derive_subkey-parts :
    (sodium : Derivation) (m_key : Base byte_type) (size_ key_id : ℕ) (context : Bytes)
    → size m_key ≡ 32
    → 16 ≤ size_
    → size_ ≤ 64
    → derive_subkey sodium m_key size_ key_id context
      ≡ or_throw (sodium.crypto_kdf_derive_from_key size_ key_id context m_key.vec) derivation_error
        >>= (λ out. ok (record { vec = out }))
unfolding derive_subkey new from_vector
derive_subkey-parts sodium m_key size_ key_id context sized low high = rw (
  eq→== _ _ sized,
  le→ltb size_ 16 low,
  le→ltb 64 size_ high,
  read_at_whole 32 m_key.vec (sym (size-bytes m_key) ∙ sized),
  size-of_size size_,
)

derive_subkey_checks :
    (sodium : Derivation) (m_key : Base byte_type) (size_ key_id : ℕ) (context : Bytes)
    (k : Base byte_type)
    → derive_subkey sodium m_key size_ key_id context ≡ ok k
    → (size m_key ≡ 32) × (16 ≤ size_) × (size_ ≤ 64)
unfolding derive_subkey
derive_subkey_checks sodium m_key size_ key_id context k e = elim (Bool-cases (size m_key == 32)) [
  | inr wrong ↦ cc (rw wrong at e)
  | inl sized ↦ elim (Bool-cases (ltb size_ 16)) [
    | inl short ↦ cc (rw (sized, short) at e)
    | inr low ↦ elim (Bool-cases (ltb 64 size_)) [
      | inl long ↦ cc (rw (sized, low, long) at e)
      | inr high ↦ ((==_iff _ _).0 sized, ltb→ge _ _ low, ltb→ge _ _ high)
    ]
  ]
]

-- A subkey is returned exactly when the master key has 32 bytes, the size is from 16 to 64, and
-- libsodium derives that many bytes from the master key, the identifier and the context; the subkey
-- holds those bytes.
pub derive_subkey_iff :
    (sodium : Derivation) (m_key : Base byte_type) (size_ key_id : ℕ) (context : Bytes)
    (k : Base byte_type)
    → (derive_subkey sodium m_key size_ key_id context ≡ ok k) ↔ (
        (size m_key ≡ 32)
        × (16 ≤ size_)
        × (size_ ≤ 64)
        × (sodium.crypto_kdf_derive_from_key size_ key_id context m_key.vec ≡ some k.vec))
derive_subkey_iff sodium m_key size_ key_id context k = (
  λ e.
      let (sized, low, high) = derive_subkey_checks sodium m_key size_ key_id context k e in
      let ran = sym (derive_subkey-parts sodium m_key size_ key_id context sized low high) ∙ e in
      let (out, derived, kept) =
        >>=-eq-ok
          (or_throw (sodium.crypto_kdf_derive_from_key size_ key_id context m_key.vec)
            derivation_error)
          _ ran in
      let same : out ≡ k.vec = ap contents kept in
      (sized, low, high, or_throw-eq-ok _ derivation_error derived ∙ ap some same),
  λ h.
      let (sized, low, high, derived) = h in
      derive_subkey-parts sodium m_key size_ key_id context sized low high ∙ rw derived,
)
