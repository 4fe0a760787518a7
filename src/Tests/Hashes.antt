-- ===== src/Tests/Hashes.antt =====
-- Tags of a message in one call and in parts, derived keys, and a shared secret.
use sylvite.Common.{
  throw, logic_error, ℕ, ◌≤◌, ◌≡◌, ◌↔◌, refl, true, [], ◌∷◌, Bytes, replicate, ok, some,
}
use sylvite.Sodium.Auth.{sha256, sha512}
use sylvite.Hash.Stream.{Stream}
use sylvite.Hash.Stream.Parts.{feed}
use sylvite.Hash.Stream.Once.{updates, finalizes}
use sylvite.Hash.Stream.Refinement.{updated, returned, replies, spec_replies}
use sylvite.Hash.Hmac.Refinement.{replies-new-mac}
use sylvite.Hash.Hmac.{mac, verify, new}
use sylvite.Hash.Hmac.Verify.{verify-mac}
use sylvite.Hash.Hmac.Parts.{feed-mac}
use sylvite.Internal.Base.{Base, byte_type, size}
use sylvite.Pq.Kem.{KeyPair, generate_keypair, encapsulate, decapsulate}
use sylvite.Pq.Kem.RoundTrip.{decapsulate-encapsulate}
use sylvite.Kdf.Profile.{Preset, named, moderate}
use sylvite.Kdf.Hkdf.{derive_subkey}
use sylvite.Kdf.Hkdf.Checks.{derive_subkey_iff}
use sylvite.Kdf.Argon2id.{derive_key}
use sylvite.Kdf.Argon2id.Checks.{derive_key_iff}
use sylvite.Tests.Parameters.{auth, auth_laws, derivation, clock, kem, kem_laws}

abbrev key : Bytes
key = replicate 32 5

verify-mac_example :
    (verify (auth sha256) (replicate 32 8) (1 ∷ 2 ∷ []) key ≡ ok true)
    ↔ (mac (auth sha256) (1 ∷ 2 ∷ []) key ≡ ok (replicate 32 8))
verify-mac_example = verify-mac (auth_laws sha256) (replicate 32 8) (1 ∷ 2 ∷ []) key refl

replies-new-mac_example :
    (stream : Stream (auth sha256).parts) × (new (auth sha256) key ≡ ok stream)
    × (replies
          (auth sha256).parts
          stream
          (updates (1 ∷ []) ∷ updates (2 ∷ []) ∷ finalizes ∷ finalizes ∷ [])
        ≡ updated (ok tt)
          ∷ updated (ok tt)
          ∷ returned (mac (auth sha256) (1 ∷ 2 ∷ []) key)
          ∷ returned (throw logic_error)
          ∷ [])
unfolding spec_replies
replies-new-mac_example =
    replies-new-mac (auth_laws sha256) key
      (updates (1 ∷ []) ∷ updates (2 ∷ []) ∷ finalizes ∷ finalizes ∷ []) refl

feed-mac_test :
    (stream : Stream (auth sha512).parts) × (new (auth sha512) key ≡ ok stream)
    × ((feed (auth sha512).parts stream ((1 ∷ 2 ∷ []) ∷ [] ∷ (3 ∷ []) ∷ [])).1
        ≡ mac (auth sha512) (1 ∷ 2 ∷ 3 ∷ []) key)
    × ((feed (auth sha512).parts stream ((1 ∷ 2 ∷ []) ∷ [] ∷ (3 ∷ []) ∷ [])).0.finalized ≡ true)
feed-mac_test = feed-mac (auth_laws sha512) key ((1 ∷ 2 ∷ []) ∷ [] ∷ (3 ∷ []) ∷ []) refl

abbrev buffer : ℕ → ℕ → Base byte_type
buffer n b = record { vec = replicate n b }

derive_subkey_iff_test :
    (derive_subkey derivation (buffer 32 5) 16 2 (replicate 8 0) ≡ ok (buffer 16 7)) ↔ (
      (size (buffer 32 5) ≡ 32)
      × (16 ≤ 16)
      × (16 ≤ 64)
      × (derivation.crypto_kdf_derive_from_key 16 2 (replicate 8 0) (replicate 32 5)
          ≡ some (replicate 16 7)))
derive_subkey_iff_test =
    derive_subkey_iff derivation (buffer 32 5) 16 2 (replicate 8 0) (buffer 16 7)

derive_key_iff_example :
    (derive_key derivation (1 ∷ 2 ∷ []) (buffer 16 9) 32 (named moderate) ≡ ok (buffer 32 3)) ↔ (
      (32 ≤ 32)
      × (size (buffer 16 9) ≡ 16)
      × (preset : Preset) × (named moderate ≡ named preset)
      × (derivation.crypto_pwhash 32
            (1 ∷ 2 ∷ [])
            (replicate 16 9)
            (derivation.crypto_pwhash_opslimit preset)
            (derivation.crypto_pwhash_memlimit preset)
          ≡ some (replicate 32 3)))
derive_key_iff_example =
    derive_key_iff derivation (1 ∷ 2 ∷ []) (buffer 16 9) 32 (named moderate) (buffer 32 3)

decapsulate-encapsulate_test :
    (pair : KeyPair) × (generate_keypair kem (clock 0) ≡ ok pair)
    × (size pair.public_key ≡ 2)
    × (size pair.secret_key ≡ 1)
    × (ss : Base byte_type) × (ct : Base byte_type) × (encapsulate kem (clock 1) pair.public_key
        ≡ ok (ss, ct))
    × (size ss ≡ 32)
    × (size ct ≡ 2)
    × (decapsulate kem ct pair.secret_key ≡ ok ss.vec)
decapsulate-encapsulate_test = decapsulate-encapsulate kem_laws (clock 0) (clock 1)
