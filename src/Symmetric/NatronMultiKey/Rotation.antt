-- ===== src/Symmetric/NatronMultiKey/Rotation.antt =====
-- symmetric/natron.hpp: rotation moves a token to the active key.
use sylvite.Common.{
  ◌+◌, ◌≤◌, ◌<◌, ◌≡◌, List, ◌∷◌, Bytes, length, Option, ok, >>=-eq-ok, arith, ◌==◌, Bool-cases, inl,
  inr,
}
use sylvite.Common.Int.{ℤ, u64_mod}
use sylvite.Sodium.Environment.{Environment}
use sylvite.Sodium.Codec.{Codec, CodecLaws}
use sylvite.Sodium.Secretbox.{Secretbox, SecretboxLaws}
use sylvite.Internal.Base.{Base, byte_type, size}
use sylvite.Symmetric.Natron
use sylvite.Symmetric.Natron.{now_secs}
use sylvite.Symmetric.Natron.Lifetime.{IsTimely}
use sylvite.Symmetric.Natron.RoundTrip.{decrypt-encrypt}
use sylvite.Symmetric.NatronMultiKey.{NatronMultiKey, new, check_sizes, encrypt, decrypt, rotate}

-- The constructor lets a list of keys through only if its first key has 32 bytes, and keeps the list.
new-first :
    (key : Base byte_type) (rest : List (Base byte_type)) (multi : NatronMultiKey)
    → new (key ∷ rest) ≡ ok multi
    → (size key ≡ 32) × (multi ≡ record { keys = key ∷ rest })
unfolding new
new-first key rest multi e = elim (Bool-cases (size key == 32)) [
  | inl sized ↦
      let (u, checked, kept) = >>=-eq-ok (check_sizes (key ∷ rest)) _ e in (ground arith, cc)
  | inr wrong ↦ cc (rw wrong at e)
]

-- A token that an accepted list of keys decrypts, to a plaintext within libsodium's limit, is rotated
-- to a new token, and Natron decrypts that one with the first key of the list to the same plaintext,
-- with no time to live or one that the new token's age is within (the clock's tolerance not wrapping).
pub decrypt-rotate :
    {box : Secretbox} (laws : SecretboxLaws box) {codec : Codec} (coding : CodecLaws codec)
    (env later last : Environment) (key : Base byte_type) (rest : List (Base byte_type))
    (multi : NatronMultiKey) (token plaintext : Bytes) (ttl ttl' : Option ℤ)
    → new (key ∷ rest) ≡ ok multi
    → decrypt box codec env multi token ttl ≡ ok plaintext
    → length plaintext ≤ box.crypto_secretbox_messagebytes_max
    → now_secs last + 60 < u64_mod
    → IsTimely last (now_secs later) ttl'
    → (token' : Bytes) × (rotate box codec env later multi token ttl ≡ ok token')
      × (Natron.decrypt box codec last token' key ttl' ≡ ok plaintext)
unfolding rotate encrypt
decrypt-rotate laws coding env later last key rest multi token plaintext ttl ttl' made e fits clock
      timely =
    let (sized, kept) = new-first key rest multi made in
    let (token', written, read) =
      decrypt-encrypt laws coding later last plaintext key ttl' sized fits clock timely in
    (token', rw (e, kept) written, read)
