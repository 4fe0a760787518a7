-- ===== src/Hash/Blake2b/Refinement.antt =====
-- hash/hash.hpp, namespace Blake2b: a stream answers any calls as a buffer of bytes does that is
-- hashed once.
use sylvite.Common.{◌≡◌, ℕ, refl, ap, ◌∙◌, false, List, [], ◌∷◌, Bytes, ok}
use sylvite.Sodium.GenericHash.{GenericHash, GenericHashLaws, IsSized}
use sylvite.Hash.Stream
use sylvite.Hash.Stream.{Stream}
use sylvite.Hash.Stream.Once.{Call, updates, finalizes}
use sylvite.Hash.Stream.Refinement.{Reply, updated, returned, replies, spec_replies, replies-open}
use sylvite.Hash.Blake2b.{SizedStream, digest, new, update, finalize}
use sylvite.Hash.Blake2b.Checks.{digest-generichash, new-init}

module _ (generic : GenericHash) where
  -- The answers to calls on a stream, one after the other.
  unfoldable pub sized_replies : SizedStream generic → List Call → List Reply
  sized_replies s [] = []
  sized_replies s (updates bytes ∷ calls) =
      let (after, done) = update generic s bytes in updated done ∷ sized_replies after calls
  sized_replies s (finalizes ∷ calls) =
      let (after, out) = finalize generic s in returned out ∷ sized_replies after calls

  sized_replies-replies :
      (n : ℕ) (stream : Stream (generic.parts n)) (calls : List Call)
      → sized_replies (record { out_len = n; stream = stream }) calls
        ≡ replies (generic.parts n) stream calls
  unfolding sized_replies replies update finalize
  sized_replies-replies n stream [] = refl
  sized_replies-replies n stream (updates bytes ∷ calls) =
      let (after, done) = Stream.update (generic.parts n) stream bytes in
      ap (λ l. updated done ∷ l) (sized_replies-replies n after calls)
  sized_replies-replies n stream (finalizes ∷ calls) =
      let (after, out) = Stream.finalize (generic.parts n) stream in
      ap (λ l. returned out ∷ l) (sized_replies-replies n after calls)

module _ {generic : GenericHash} (laws : GenericHashLaws generic) where
  -- For a size from 16 to 64 and a key that is empty or has from 16 to 64 bytes, a stream is made, and
  -- whatever calls of `update` and `finalize` follow, in any order, it answers them as a buffer would
  -- that grows by each update, gives what `digest` returns for its bytes, the size and the key to the
  -- first `finalize`, and refuses every call after that.
  pub sized_replies-new :
      (out_len : ℕ) (key : Bytes) (calls : List Call)
      → IsSized out_len key
      → (s : SizedStream generic) × (new generic out_len key ≡ ok s)
        × (sized_replies generic s calls
            ≡ spec_replies (λ m. digest generic m out_len key) [] false calls)
  sized_replies-new out_len key calls sized =
      let (st, started, absorbed) = laws.init-Absorbed out_len key sized in
      let stream : Stream (generic.parts out_len) = record { state = st; finalized = false } in
      (
        record { out_len = out_len; stream = stream },
        new-init generic out_len key st sized.0 sized.1 started,
        sized_replies-replies generic out_len stream calls
            ∙ replies-open (laws.parts_laws out_len key sized) (λ m. digest generic m out_len key)
                (λ m.
                  let (out, hashed) = laws.hash_total out_len m key sized in
                  (out, hashed, digest-generichash generic m out_len key sized ∙ rw hashed))
                [] st calls absorbed,
      )
