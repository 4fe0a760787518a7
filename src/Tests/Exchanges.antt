-- ===== src/Tests/Exchanges.antt =====
-- Components together: a hybrid exchange, and tokens under keys from a password.
use sylvite.Common.{◌≡◌, ◌↔◌, some, refl, inr, false, [], ◌∷◌, Bytes, replicate, none, ok, arith}
use sylvite.Internal.Base.{Base, byte_type, size}
use sylvite.Types.Nonce.{Nonce, lazy}
use sylvite.Pq.Kem.{KeyPair}
use sylvite.Pq.MlKem768.{generate_keypair, encapsulate, decapsulate}
use sylvite.Pq.MlKem768.Hybrid.{decrypt-decapsulate}
use sylvite.Symmetric.XChaCha20
use sylvite.Symmetric.Natron
use sylvite.Kdf.Profile.{Preset, named, moderate}
use sylvite.Kdf.Hkdf.{derive_subkey}
use sylvite.Kdf.Argon2id.{derive_key}
use sylvite.Kdf.Argon2id.Login.{login, login_iff}
use sylvite.Tests.System.{terminal}
use sylvite.Kdf.Argon2id.Passwords.{decrypt-derive_subkey}
use sylvite.Tests.Parameters.{
  clock, box, box_laws, aead, aead_laws, codec, coding, derivation, derivation_laws, kem, kem_laws,
}

abbrev message : Bytes
message = 1 ∷ 2 ∷ 3 ∷ []

abbrev nonce : Nonce lazy
nonce = record { buffer = record { vec = [] }; used = false }

decrypt-decapsulate_example :
    (pair : KeyPair) × (ss : Base byte_type) × (capsule : Base byte_type) × (ct : Base byte_type)
    × (key : Base byte_type) × (generate_keypair kem (clock 0) ≡ ok pair)
    × (encapsulate kem (clock 1) pair.public_key ≡ ok (ss, capsule))
    × ((XChaCha20.encrypt aead (clock 2) message ss nonce []).1 ≡ ok ct)
    × (decapsulate kem capsule pair.secret_key ≡ ok key)
    × (XChaCha20.decrypt aead ct key (XChaCha20.encrypt aead (clock 2) message ss nonce []).0 []
        ≡ ok message)
unfolding size
decrypt-decapsulate_example =
    decrypt-decapsulate kem_laws aead_laws (clock 0) (clock 1) (clock 2) message [] nonce refl refl
      (inr (refl, refl)) (omega arith)

abbrev salt : Base byte_type
salt = record { vec = replicate 16 9 }

abbrev master : Base byte_type
master = record { vec = replicate 32 3 }

decrypt-derive_subkey_example :
    (made : Base byte_type) × (key : Base byte_type) × (token : Bytes) × (derive_key derivation
        (1 ∷ 2 ∷ [])
        salt
        32
        (named moderate)
      ≡ ok made)
    × (made.vec ≡ replicate 32 3)
    × (derive_subkey derivation made 32 1 (replicate 8 0) ≡ ok key)
    × (some (replicate 32 4) ≡ some key.vec)
    × (Natron.encrypt box codec (clock 1000) message key ≡ ok token)
    × (Natron.decrypt box codec (clock 1030) token key none ≡ ok message)
unfolding size
decrypt-derive_subkey_example =
    decrypt-derive_subkey derivation_laws box_laws coding (1 ∷ 2 ∷ []) salt moderate
      (replicate 32 3) 1 (replicate 8 0) (clock 1000) (clock 1030) message none refl refl refl
      (omega arith) (omega arith) tt

-- The password is typed without echo, with another line behind it.
login_iff_example :
    (login derivation terminal false (some []) (1 ∷ 2 ∷ b'\r' ∷ b'x' ∷ []) salt (named moderate)
      ≡ ok master)
    ↔ ((size salt ≡ 16)
        × (preset : Preset) × (named moderate ≡ named preset)
        × (derivation.crypto_pwhash 32
              (1 ∷ 2 ∷ [])
              salt.vec
              (derivation.crypto_pwhash_opslimit preset)
              (derivation.crypto_pwhash_memlimit preset)
            ≡ some master.vec))
login_iff_example =
    login_iff derivation terminal false (some []) (1 ∷ 2 ∷ b'\r' ∷ b'x' ∷ []) salt (named moderate)
      master

logged_in :
    login derivation terminal false (some []) (1 ∷ 2 ∷ b'\r' ∷ b'x' ∷ []) salt (named moderate)
    ≡ ok master
unfolding size
logged_in =
    (login_iff derivation terminal false (some []) (1 ∷ 2 ∷ b'\r' ∷ b'x' ∷ []) salt (named moderate)
        master).1
      (refl, moderate, refl, refl)
