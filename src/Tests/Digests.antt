-- ===== src/Tests/Digests.antt =====
-- Hashes of a message in one call and in parts, their text, and the sizes of BLAKE2b.
use sylvite.Common.{
  List, ◌≤◌, ◌≡◌, ◌↔◌, ◌⊎◌, inl, inr, false, refl, true, false, [], ◌∷◌, Bytes, length, replicate,
  ok, throw, logic_error, some, arith,
}
use sylvite.Sodium.Hasher.{sha256, sha3_512}
use sylvite.Utils.Hex
use sylvite.Hash.Stream.{Stream}
use sylvite.Hash.Stream.Once.{Call, updates, finalizes, outputs, outputs-le}
use sylvite.Hash.Stream.Parts.{feed}
use sylvite.Hash.Stream.Refinement.{updated, returned, replies, spec_replies}
use sylvite.Hash.Sha256
use sylvite.Hash.Sha256.Refinement.{replies-new}
use sylvite.Hash.Sha256.Parts.{feed-digest}
use sylvite.Hash.Sha256.Text.{decode-hexdigest}
use sylvite.Hash.Blake2b
use sylvite.Hash.Blake2b.Checks.{digest_iff, new_short_key}
use sylvite.Hash.Blake2b.Refinement.{sized_replies, sized_replies-new}
use sylvite.Hash.Blake2b.Parts.{feed_sized, feed_sized-digest}
use sylvite.Tests.Parameters.{hasher, hasher_laws, generic_hash, generic_hash_laws, codec, coding}

abbrev started : Stream (hasher sha256).parts
started = record { state = 5; finalized = false }

outputs-le_test :
    outputs (hasher sha256).parts started (updates [] ∷ finalizes ∷ updates [] ∷ finalizes ∷ []) ≤ 1
outputs-le_test =
    outputs-le (hasher sha256).parts (updates [] ∷ finalizes ∷ updates [] ∷ finalizes ∷ []) started

feed-digest_test :
    (stream : Stream (hasher sha3_512).parts) × (out : Bytes) × (Sha256.new (hasher sha3_512)
      ≡ ok stream)
    × (Sha256.digest (hasher sha3_512) (1 ∷ 2 ∷ 3 ∷ []) ≡ ok out)
    × (length out ≡ 64)
    × ((feed (hasher sha3_512).parts stream ((1 ∷ 2 ∷ []) ∷ [] ∷ (3 ∷ []) ∷ [])).1 ≡ ok out)
    × ((feed (hasher sha3_512).parts stream ((1 ∷ 2 ∷ []) ∷ [] ∷ (3 ∷ []) ∷ [])).0.finalized ≡ true)
feed-digest_test = feed-digest (hasher_laws sha3_512) ((1 ∷ 2 ∷ []) ∷ [] ∷ (3 ∷ []) ∷ [])

decode-hexdigest_test :
    (text : Bytes) × (Sha256.hexdigest (hasher sha256) codec (1 ∷ 2 ∷ []) ≡ ok text)
    × (length text ≡ 64)
    × (Hex.decode codec text ≡ Sha256.digest (hasher sha256) (1 ∷ 2 ∷ []))
decode-hexdigest_test = decode-hexdigest (hasher_laws sha256) coding (1 ∷ 2 ∷ [])

abbrev key : Bytes
key = replicate 16 4

digest_iff_test : (Blake2b.digest generic_hash (1 ∷ 2 ∷ []) 20 key ≡ ok (replicate 20 7)) ↔ (
    (16 ≤ 20)
    × (20 ≤ 64)
    × ((length key ≡ 0) ⊎ ((16 ≤ length key) × (length key ≤ 64)))
    × (generic_hash.crypto_generichash 20 (1 ∷ 2 ∷ []) key ≡ some (replicate 20 7)))
digest_iff_test = digest_iff generic_hash (1 ∷ 2 ∷ []) 20 key (replicate 20 7)

new_short_key_test :
    (Blake2b.digest generic_hash (1 ∷ []) 32 (9 ∷ []) ≡ throw logic_error)
    × (Blake2b.new generic_hash 32 (9 ∷ [])
        ≡ ok (record { out_len = 32; stream = record { state = 9; finalized = false } }))
new_short_key_test =
    new_short_key generic_hash (1 ∷ []) 32 (9 ∷ []) 9 (omega arith) (omega arith) (omega arith)
      (omega arith) refl

feed_sized-digest_test :
    (s : Blake2b.SizedStream generic_hash) × (out : Bytes) × (Blake2b.new generic_hash 32 [] ≡ ok s)
    × (Blake2b.digest generic_hash (1 ∷ 2 ∷ 3 ∷ []) 32 [] ≡ ok out)
    × ((feed_sized generic_hash s ((1 ∷ 2 ∷ []) ∷ (3 ∷ []) ∷ [])).1 ≡ ok out)
    × ((feed_sized generic_hash s ((1 ∷ 2 ∷ []) ∷ (3 ∷ []) ∷ [])).0.stream.finalized ≡ true)
feed_sized-digest_test =
    feed_sized-digest generic_hash_laws ((1 ∷ 2 ∷ []) ∷ (3 ∷ []) ∷ []) 32 []
      (omega arith, omega arith, inl refl)

abbrev history : List Call
history = updates (1 ∷ []) ∷ updates (2 ∷ []) ∷ finalizes ∷ updates (3 ∷ []) ∷ finalizes ∷ []

replies-new_example :
    (stream : Stream (hasher sha256).parts) × (Sha256.new (hasher sha256) ≡ ok stream)
    × (replies (hasher sha256).parts stream history
        ≡ updated (ok tt)
          ∷ updated (ok tt)
          ∷ returned (Sha256.digest (hasher sha256) (1 ∷ 2 ∷ []))
          ∷ updated (throw logic_error)
          ∷ returned (throw logic_error)
          ∷ [])
unfolding spec_replies
replies-new_example = replies-new (hasher_laws sha256) history

sized_replies-new_example :
    (s : Blake2b.SizedStream generic_hash) × (Blake2b.new generic_hash 20 key ≡ ok s)
    × (sized_replies generic_hash s (updates (1 ∷ []) ∷ finalizes ∷ updates [] ∷ finalizes ∷ [])
        ≡ spec_replies
            (λ m. Blake2b.digest generic_hash m 20 key)
            []
            false
            (updates (1 ∷ []) ∷ finalizes ∷ updates [] ∷ finalizes ∷ []))
sized_replies-new_example =
    sized_replies-new generic_hash_laws 20 key
      (updates (1 ∷ []) ∷ finalizes ∷ updates [] ∷ finalizes ∷ [])
      (omega arith, omega arith, inr (omega arith, omega arith))
