-- ===== src/Kdf/Argon2id/Passwords.antt =====
-- kdf/argon2id.hpp and kdf/hkdf.hpp with symmetric/natron.hpp: tokens under keys from a password.
use sylvite.Common.{ℕ, ◌+◌, ◌<◌, ◌≤◌, ◌≡◌, refl, sym, ◌∙◌, Bytes, length, Option, some, ok, arith}
use sylvite.Common.Int.{ℤ, u64_mod}
use sylvite.Sodium.Environment.{Environment}
use sylvite.Sodium.Codec.{Codec, CodecLaws}
use sylvite.Sodium.Secretbox.{Secretbox, SecretboxLaws}
use sylvite.Sodium.Derivation.{Derivation, DerivationLaws}
use sylvite.Internal.Base.{Base, byte_type, size}
use sylvite.Internal.Base.Buffers.{size-bytes}
use sylvite.Kdf.Profile.{Preset, Profile, named}
use sylvite.Kdf.Argon2id.{derive_key}
use sylvite.Kdf.Argon2id.Checks.{derive_key_iff}
use sylvite.Kdf.Hkdf.{derive_subkey}
use sylvite.Kdf.Hkdf.Checks.{derive_subkey_iff}
use sylvite.Symmetric.Natron
use sylvite.Symmetric.Natron.{now_secs}
use sylvite.Symmetric.Natron.Lifetime.{IsTimely}
use sylvite.Symmetric.Natron.RoundTrip.{decrypt-encrypt}

module _ {sodium : Derivation} (laws : DerivationLaws sodium) where
  -- A key that Argon2id returns has the size asked for.
  pub size-derive_key :
      (password : Bytes) (salt : Base byte_type) (out_len : ℕ) (profile : Profile)
      (k : Base byte_type)
      → derive_key sodium password salt out_len profile ≡ ok k
      → size k ≡ out_len
  size-derive_key password salt out_len profile k e =
      let (_, _, preset, _, hashed) = (derive_key_iff sodium password salt out_len profile k).0 e in
      size-bytes k ∙ laws.length-pwhash out_len password salt.vec _ _ k.vec hashed

  -- From a master key of 32 bytes and a context of 8, a subkey of any size from 16 to 64 is derived: the
  -- bytes that libsodium derives from that master key, identifier and context.
  pub derive_subkey_total :
      (master : Base byte_type) (n id : ℕ) (context : Bytes)
      → size master ≡ 32
      → 16 ≤ n
      → n ≤ 64
      → length context ≡ 8
      → (k : Base byte_type) × (derive_subkey sodium master n id context ≡ ok k)
        × (sodium.crypto_kdf_derive_from_key n id context master.vec ≡ some k.vec)
        × (size k ≡ n)
  derive_subkey_total master n id context sized low high fixed =
      let keyed = sym (size-bytes master) ∙ sized in
      let (out, derived) = laws.kdf_total n id context master.vec low high fixed keyed in
      let k : Base byte_type = record { vec = out } in
      (
        k,
        (derive_subkey_iff sodium master n id context k).1 (sized, low, high, derived),
        derived,
        size-bytes k ∙ laws.length-kdf n id context master.vec out derived,
      )

  -- For a salt of 16 bytes, a named profile, a context of 8 bytes and a plaintext within libsodium's
  -- limit: if Argon2id, with the limits of the profile, takes the password and the salt to 32 bytes,
  -- the master key has those bytes, the subkey has the 32 bytes that libsodium derives from them, the
  -- identifier and the context, Natron encrypts under the subkey, and decrypting later under it gives the
  -- plaintext, with no time to live or with one that the token's age is within (the clock's tolerance not
  -- wrapping).
  pub decrypt-derive_subkey :
      {box : Secretbox} (box_laws : SecretboxLaws box) {codec : Codec} (coding : CodecLaws codec)
      (password : Bytes) (salt : Base byte_type) (preset : Preset) (m : Bytes) (id : ℕ)
      (context : Bytes) (env later : Environment) (plaintext : Bytes) (ttl : Option ℤ)
      → size salt ≡ 16
      → sodium.crypto_pwhash 32 password salt.vec
          (sodium.crypto_pwhash_opslimit preset)
          (sodium.crypto_pwhash_memlimit preset)
        ≡ some m
      → length context ≡ 8
      → length plaintext ≤ box.crypto_secretbox_messagebytes_max
      → now_secs later + 60 < u64_mod
      → IsTimely later (now_secs env) ttl
      → (master : Base byte_type) × (key : Base byte_type) × (token : Bytes) × (derive_key sodium
            password salt 32
            (named preset)
          ≡ ok master)
        × (master.vec ≡ m)
        × (derive_subkey sodium master 32 id context ≡ ok key)
        × (sodium.crypto_kdf_derive_from_key 32 id context m ≡ some key.vec)
        × (Natron.encrypt box codec env plaintext key ≡ ok token)
        × (Natron.decrypt box codec later token key ttl ≡ ok plaintext)
  decrypt-derive_subkey box_laws coding password salt preset m id context env later plaintext ttl
        salted hashed fixed fits clock timely =
      let master : Base byte_type = record { vec = m } in
      let made =
        (derive_key_iff sodium password salt 32 (named preset) master).1
          (omega arith, salted, preset, refl, hashed) in
      let master_size = size-derive_key password salt 32 (named preset) master made in
      let (key, derived, bytes, key_size) =
        derive_subkey_total master 32 id context master_size (omega arith) (omega arith) fixed in
      let (token, sealed, opened) =
        decrypt-encrypt box_laws coding env later plaintext key ttl key_size fits clock timely in
      (master, key, token, made, refl, derived, bytes, sealed, opened)
