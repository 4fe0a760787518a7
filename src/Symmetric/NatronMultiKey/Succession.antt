-- ===== src/Symmetric/NatronMultiKey/Succession.antt =====
-- symmetric/natron.hpp: a token that is rotated again and again, while the keys are replaced.
use sylvite.Common.{
  ◌+◌, ◌≤◌, ◌<◌, ◌≡◌, refl, List, [], ◌∷◌, Bytes, length, none, Outcome, ok, ◌>>=◌,
}
use mathlib.Core.List.{Memᴰ}
use sylvite.Common.Int.{u64_mod}
use sylvite.Sodium.Environment.{Environment}
use sylvite.Sodium.Codec.{Codec, CodecLaws}
use sylvite.Sodium.Secretbox.{Secretbox, SecretboxLaws}
use sylvite.Internal.Base.{Base, byte_type}
use sylvite.Symmetric.Natron
use sylvite.Symmetric.Natron.{now_secs}
use sylvite.Symmetric.NatronMultiKey.{NatronMultiKey, new, rotate}
use sylvite.Symmetric.NatronMultiKey.Member.{Reads, decrypt-member}
use sylvite.Symmetric.NatronMultiKey.Rotation.{decrypt-rotate}

-- A rotation: its keys, the active one first, and the clock and the random source of its two halves.
pub record Shift : Type 0 where
  pub active : Base byte_type
  pub others : List (Base byte_type)
  pub env : Environment
  pub later : Environment

module _ (box : Secretbox) (codec : Codec) where
  -- The token behind all the rotations, each by a NatronMultiKey made from its keys.
  unfoldable pub rotations : List Shift → Bytes → Outcome Bytes
  rotations [] token = ok token
  rotations (s ∷ shifts) token = new (s.active ∷ s.others) >>= λ multi.
      rotate box codec s.env s.later multi token none >>= rotations shifts

-- The key that the token is under behind the rotations.
abbrev pub last_active : Base byte_type → List Shift → Base byte_type
last_active key [] = key
last_active key (s ∷ shifts) = last_active s.active shifts

-- Each list of keys is accepted, has the key that was active before, and none of its keys opens the box of
-- the token that it is given to another plaintext.
abbrev pub Linked : Secretbox → Codec → Base byte_type → Bytes → Bytes → List Shift → Type 0
Linked box codec key token plaintext [] = Unit {0}
Linked box codec key token plaintext (s ∷ shifts) =
    (multi : NatronMultiKey) × (new (s.active ∷ s.others) ≡ ok multi)
    × Memᴰ key (s.active ∷ s.others)
    × Reads box codec (s.active ∷ s.others) token plaintext
    × ((token' : Bytes)
        → rotate box codec s.env s.later multi token none ≡ ok token'
        → Linked box codec s.active token' plaintext shifts)

module _ {box : Secretbox} (laws : SecretboxLaws box) {codec : Codec} (coding : CodecLaws codec)
    (last : Environment) (clock : now_secs last + 60 < u64_mod) where
  -- A token that Natron opens with one key survives any rotations to new keys, each list of keys accepted,
  -- with the key that was active before, and with no key that opens the box of the token it rotates to
  -- another plaintext, where the plaintext is within libsodium's limit: all the rotations succeed, and
  -- Natron opens the last token to the same plaintext with the key that is active at the end (the clock's
  -- tolerance not wrapping).
  pub decrypt-rotations :
      (shifts : List Shift) (key : Base byte_type) (token plaintext : Bytes)
      → Natron.decrypt box codec last token key none ≡ ok plaintext
      → length plaintext ≤ box.crypto_secretbox_messagebytes_max
      → Linked box codec key token plaintext shifts
      → (token' : Bytes) × (rotations box codec shifts token ≡ ok token')
        × (Natron.decrypt box codec last token' (last_active key shifts) none ≡ ok plaintext)
  unfolding rotations
  decrypt-rotations [] key token plaintext e fits linked = (token, refl, e)
  decrypt-rotations (s ∷ shifts) key token plaintext e fits (multi, made, there, reads, linked) =
      let read =
        decrypt-member box codec last s.env token plaintext key s.active s.others multi clock e made
          there reads in
      let (moved, rotated, opens) =
        decrypt-rotate laws coding s.env s.later last s.active s.others multi token plaintext none
          none made read fits clock tt in
      let (token', done, opens') =
        decrypt-rotations shifts s.active moved plaintext opens fits (linked moved rotated) in
      (token', rw (made, rotated) done, opens')
