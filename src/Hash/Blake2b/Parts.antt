-- ===== src/Hash/Blake2b/Parts.antt =====
-- hash/hash.hpp, namespace Blake2b: hashing a message in parts is hashing the whole.
use sylvite.Common.{◌≡◌, ℕ, refl, ◌∙◌, true, false, List, [], ◌∷◌, Bytes, Outcome, ok, ◌>>=◌}
use sylvite.Sodium.GenericHash.{GenericHash, GenericHashLaws, IsSized}
use sylvite.Hash.Stream.{Stream}
use sylvite.Hash.Stream.Parts.{concat, feed, feed-Absorbed}
use sylvite.Hash.Blake2b.{SizedStream, digest, new, update, finalize}
use sylvite.Hash.Blake2b.Checks.{digest-generichash, new-init}

module _ (generic : GenericHash) where
  -- `update` for each part, then `finalize`.
  unfoldable pub feed_sized : SizedStream generic → List Bytes → SizedStream generic × Outcome Bytes
  feed_sized s [] = finalize generic s
  feed_sized s (part ∷ parts) =
      let (after, updated) = update generic s part in
      let (last, out) = feed_sized after parts in (last, updated >>= λ done. out)

  feed_sized-feed :
      (parts : List Bytes) (n : ℕ) (stream : Stream (generic.parts n))
      → feed_sized (record { out_len = n; stream = stream }) parts ≡ (
        record { out_len = n; stream = (feed (generic.parts n) stream parts).0 },
        (feed (generic.parts n) stream parts).1,
      )
  unfolding feed_sized feed update finalize
  feed_sized-feed [] n stream = refl
  feed_sized-feed (part ∷ parts) n stream = rw (feed_sized-feed parts n _)

module _ {generic : GenericHash} (laws : GenericHashLaws generic) where
  -- For a size from 16 to 64 and a key that is empty or has from 16 to 64 bytes, a new stream that is given
  -- a message in any parts, empty ones included, finalizes to what `digest` returns for the whole.
  pub feed_sized-digest :
      (parts : List Bytes) (out_len : ℕ) (key : Bytes)
      → IsSized out_len key
      → (s : SizedStream generic) × (out : Bytes) × (new generic out_len key ≡ ok s)
        × (digest generic (concat parts) out_len key ≡ ok out)
        × ((feed_sized generic s parts).1 ≡ ok out)
        × ((feed_sized generic s parts).0.stream.finalized ≡ true)
  feed_sized-digest parts out_len key sized =
      let (st, started, absorbed) = laws.init-Absorbed out_len key sized in
      let (out, hashed) = laws.hash_total out_len (concat parts) key sized in
      let stream : Stream (generic.parts out_len) = record { state = st; finalized = false } in
      let (given, final) =
        feed-Absorbed (laws.parts_laws out_len key sized) [] out parts stream refl absorbed
          hashed in
      (
        record { out_len = out_len; stream = stream },
        out,
        new-init generic out_len key st sized.0 sized.1 started,
        digest-generichash generic (concat parts) out_len key sized ∙ rw hashed,
        rw (feed_sized-feed generic parts out_len stream) given,
        rw (feed_sized-feed generic parts out_len stream) final,
      )
