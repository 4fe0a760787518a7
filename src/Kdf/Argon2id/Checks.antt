-- ===== src/Kdf/Argon2id/Checks.antt =====
-- kdf/argon2id.hpp: which calls return a key.
use sylvite.Common.{
  ℕ, ◌≤◌, ◌≡◌, refl, ◌↔◌, Bytes, ltb, ltb→ge, le→ltb, ◌==◌, eq→==, ==_iff, Bool-cases, inl, inr,
  some, ok, ◌>>=◌, or_throw, or_throw-eq-ok, >>=-eq-ok, read_at_whole, runtime_error, sym, ap, ◌∙◌,
}
use sylvite.Sodium.Derivation.{Derivation}
use sylvite.Kdf.Profile.{Preset, Profile, named, unnamed}
use sylvite.Kdf.Argon2id.{limits, derive_key}
use sylvite.Internal.Base.{Base, byte_type, size}
use sylvite.Internal.Base.Buffers.{contents, size-bytes, size-of_size}
use sylvite.Types.Key.{new, from_vector}

module _ (sodium : Derivation) where
  derive_key-parts :
      (password : Bytes) (salt : Base byte_type) (out_len : ℕ) (preset : Preset)
      → 32 ≤ out_len
      → size salt ≡ 16
      → derive_key sodium password salt out_len (named preset)
        ≡ or_throw
            (sodium.crypto_pwhash out_len password salt.vec
              (sodium.crypto_pwhash_opslimit preset)
              (sodium.crypto_pwhash_memlimit preset))
            runtime_error
          >>= (λ out. ok (record { vec = out }))
  unfolding derive_key limits new from_vector
  derive_key-parts password salt out_len preset long sized = rw (
    le→ltb out_len 32 long,
    eq→== _ _ sized,
    read_at_whole 16 salt.vec (sym (size-bytes salt) ∙ sized),
    size-of_size out_len,
  )

  limits_named :
      (profile : Profile) {l : ℕ × ℕ}
      → limits sodium profile ≡ ok l
      → (preset : Preset) × (profile ≡ named preset)
  unfolding limits
  limits_named (named preset) e = (preset, refl)
  limits_named (unnamed n) e = cc e

  derive_key_checks :
      (password : Bytes) (salt : Base byte_type) (out_len : ℕ) (profile : Profile)
      (k : Base byte_type)
      → derive_key sodium password salt out_len profile ≡ ok k
      → (32 ≤ out_len) × (size salt ≡ 16) × (preset : Preset) × (profile ≡ named preset)
  unfolding derive_key limits
  derive_key_checks password salt out_len profile k e = elim (Bool-cases (ltb out_len 32)) [
    | inl short ↦ cc (rw short at e)
    | inr long ↦ elim (Bool-cases (size salt == 16)) [
      | inr wrong ↦ cc (rw (long, wrong) at e)
      | inl sized ↦
          let passed = >>=-eq-ok (limits sodium profile) _ (rw (long, sized) at e) in
          let (preset, same) = limits_named profile passed.1 in
          (ltb→ge _ _ long, (==_iff _ _).0 sized, preset, same)
    ]
  ]

  -- A key is returned exactly when at least 32 bytes are asked for, the salt has 16, the profile is one
  -- of the three names, and libsodium derives that many bytes from the password and the salt with the
  -- limits of that profile; the key holds those bytes.
  pub derive_key_iff :
      (password : Bytes) (salt : Base byte_type) (out_len : ℕ) (profile : Profile)
      (k : Base byte_type)
      → (derive_key sodium password salt out_len profile ≡ ok k) ↔ (
          (32 ≤ out_len)
          × (size salt ≡ 16)
          × (preset : Preset) × (profile ≡ named preset)
          × (sodium.crypto_pwhash out_len password salt.vec
                (sodium.crypto_pwhash_opslimit preset)
                (sodium.crypto_pwhash_memlimit preset)
              ≡ some k.vec))
  derive_key_iff password salt out_len profile k = (
    λ e.
        let (long, sized, preset, same) = derive_key_checks password salt out_len profile k e in
        let ran = sym (derive_key-parts password salt out_len preset long sized) ∙ (rw same at e) in
        let (out, derived, kept) =
          >>=-eq-ok
            (or_throw
              (sodium.crypto_pwhash out_len password salt.vec (sodium.crypto_pwhash_opslimit preset)
                (sodium.crypto_pwhash_memlimit preset))
              runtime_error)
            _ ran in
        let bytes : out ≡ k.vec = ap contents kept in
        (long, sized, preset, same, or_throw-eq-ok _ runtime_error derived ∙ ap some bytes),
    λ h.
        let (long, sized, preset, same, derived) = h in
        rw same (derive_key-parts password salt out_len preset long sized ∙ rw derived),
  )
