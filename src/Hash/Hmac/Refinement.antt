-- ===== src/Hash/Hmac/Refinement.antt =====
-- hash/hmac.hpp, class Stream: a stream answers any calls as a buffer of bytes does that is tagged once.
use sylvite.Common.{◌≡◌, false, List, [], Bytes, length, ok, eq→==}
use sylvite.Sodium.Auth.{Algorithm, Auth, AuthLaws}
use sylvite.Hash.Stream.{Stream}
use sylvite.Hash.Stream.Once.{Call}
use sylvite.Hash.Stream.Refinement.{replies, spec_replies, replies-open}
use sylvite.Hash.Hmac.{mac, new}

module _ {a : Algorithm} {auth : Auth a} (laws : AuthLaws auth) where
  -- For a key of 32 bytes a stream is made, and whatever calls of `update` and `finalize` follow, in any
  -- order, it answers them as a buffer would that grows by each update, gives what `mac` returns for its
  -- bytes and the key to the first `finalize`, and refuses every call after that.
  pub replies-new-mac :
      (key : Bytes) (calls : List Call)
      → length key ≡ 32
      → (stream : Stream auth.parts) × (new auth key ≡ ok stream)
        × (replies auth.parts stream calls ≡ spec_replies (λ m. mac auth m key) [] false calls)
  unfolding new mac
  replies-new-mac key calls sized =
      let (st, started, absorbed) = laws.init-Absorbed key sized in
      (
        record { state = st; finalized = false },
        rw started,
        replies-open (laws.parts_laws key sized) (λ m. mac auth m key)
            (λ m.
              let (tag, sealed) = laws.auth_total m key sized in
              (tag, sealed, rw (eq→== _ _ sized, sealed)))
            [] st calls absorbed,
      )
