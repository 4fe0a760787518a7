-- ===== src/Hash/Sha256/Refinement.antt =====
-- hash/hash.hpp: a stream answers any calls as a buffer of bytes does that is hashed once.
use sylvite.Common.{◌≡◌, false, List, [], ok}
use sylvite.Sodium.Hasher.{Family, Hasher, HasherLaws}
use sylvite.Hash.Stream.{Stream}
use sylvite.Hash.Stream.Once.{Call}
use sylvite.Hash.Stream.Refinement.{replies, spec_replies, replies-open}
use sylvite.Hash.Sha256.{digest, new}

module _ {f : Family} {hasher : Hasher f} (laws : HasherLaws hasher) where
  -- A stream of any of the four hashes is made, and whatever calls of `update` and `finalize` follow, in any order, it answers them
  -- as a buffer would that grows by each update, gives what `digest` returns for its bytes to the first
  -- `finalize`, and refuses every call after that.
  pub replies-new :
      (calls : List Call)
      → (stream : Stream hasher.parts) × (new hasher ≡ ok stream)
        × (replies hasher.parts stream calls ≡ spec_replies (digest hasher) [] false calls)
  unfolding new digest
  replies-new calls =
      let (st, started, absorbed) = laws.init-Absorbed in
      (
        record { state = st; finalized = false },
        rw started,
        replies-open laws.parts_laws (digest hasher)
            (λ m. let (out, hashed) = laws.hash_total m in (out, hashed, rw hashed)) [] st calls
            absorbed,
      )
