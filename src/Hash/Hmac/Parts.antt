-- ===== src/Hash/Hmac/Parts.antt =====
-- hash/hmac.hpp, class Stream: the parts of a message give the tag of the whole.
use sylvite.Common.{◌≡◌, refl, sym, ◌∙◌, true, false, List, [], Bytes, length, ok, eq→==}
use sylvite.Sodium.Auth.{Algorithm, Auth, AuthLaws}
use sylvite.Hash.Stream.{Stream}
use sylvite.Hash.Stream.Parts.{concat, feed, feed-Absorbed}
use sylvite.Hash.Hmac.{mac, new}

module _ {a : Algorithm} {auth : Auth a} (laws : AuthLaws auth) where
  -- For a key of 32 bytes, a new stream that is given a message in any parts, empty ones included,
  -- finalizes to the tag that `mac` returns for the whole message.
  pub feed-mac :
      (key : Bytes) (parts : List Bytes)
      → length key ≡ 32
      → (stream : Stream auth.parts) × (new auth key ≡ ok stream)
        × ((feed auth.parts stream parts).1 ≡ mac auth (concat parts) key)
        × ((feed auth.parts stream parts).0.finalized ≡ true)
  unfolding new mac
  feed-mac key parts sized =
      let (st, started, absorbed) = laws.init-Absorbed key sized in
      let (tag, sealed) = laws.auth_total (concat parts) key sized in
      let stream : Stream auth.parts = record { state = st; finalized = false } in
      let (out, final) =
        feed-Absorbed (laws.parts_laws key sized) [] tag parts stream refl absorbed sealed in
      (stream, rw started, out ∙ sym (rw (eq→== _ _ sized, sealed)), final)
