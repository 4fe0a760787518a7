-- ===== src/Hash/Sha256/Parts.antt =====
-- hash/hash.hpp: hashing a message in parts is hashing the whole.
use sylvite.Common.{◌≡◌, refl, true, false, List, [], Bytes, length, ok}
use sylvite.Sodium.Hasher.{Family, Hasher, HasherLaws, crypto_hash_bytes}
use sylvite.Hash.Stream.{Stream}
use sylvite.Hash.Stream.Parts.{concat, feed, feed-Absorbed}
use sylvite.Hash.Sha256.{digest, new}

module _ {f : Family} {hasher : Hasher f} (laws : HasherLaws hasher) where
  -- A new stream that is given a message in any parts, empty ones included, finalizes to what `digest`
  -- returns for the whole message, a hash of the family's size.
  pub feed-digest :
      (parts : List Bytes)
      → (stream : Stream hasher.parts) × (out : Bytes) × (new hasher ≡ ok stream)
        × (digest hasher (concat parts) ≡ ok out)
        × (length out ≡ crypto_hash_bytes f)
        × ((feed hasher.parts stream parts).1 ≡ ok out)
        × ((feed hasher.parts stream parts).0.finalized ≡ true)
  unfolding new digest
  feed-digest parts =
      let (st, started, absorbed) = laws.init-Absorbed in
      let (out, hashed) = laws.hash_total (concat parts) in
      let stream : Stream hasher.parts = record { state = st; finalized = false } in
      let (given, final) = feed-Absorbed laws.parts_laws [] out parts stream refl absorbed hashed in
      (stream, out, rw started, rw hashed, laws.length-hash (concat parts) out hashed, given, final)
