-- ===== src/Hash/Stream/Parts.antt =====
-- hash/hash.hpp and hash/hmac.hpp: the parts of a message give the hash of the whole.
use sylvite.Common.{
  ◌≡◌, refl, true, false, List, [], ◌∷◌, ◌++◌, append_assoc, append-nil, Bytes, Option, some,
  Outcome, ok, ◌>>=◌,
}
use sylvite.Sodium.Streaming.{Streaming, StreamingLaws}
use sylvite.Hash.Stream.{Stream, update, finalize}

abbrev pub concat : List Bytes → Bytes
concat [] = []
concat (part ∷ parts) = part ++ concat parts

module _ (s : Streaming) where
  -- `update` for each part, then `finalize`.
  unfoldable pub feed : Stream s → List Bytes → Stream s × Outcome Bytes
  feed stream [] = finalize s stream
  feed stream (part ∷ parts) =
      let (after, updated) = update s stream part in
      let (last, out) = feed after parts in (last, updated >>= λ done. out)

module _ {s : Streaming} {whole : Bytes → Option Bytes} (laws : StreamingLaws s whole) where
  pub feed-Absorbed :
      (before out : Bytes) (parts : List Bytes) (stream : Stream s)
      → stream.finalized ≡ false
      → laws.Absorbed before stream.state
      → whole (before ++ concat parts) ≡ some out
      → ((feed s stream parts).1 ≡ ok out) × ((feed s stream parts).0.finalized ≡ true)
  unfolding feed update finalize
  feed-Absorbed before out [] stream open_s absorbed hashed =
      let (st, done) =
        laws.final-Absorbed before out stream.state absorbed (rw append-nil at hashed) in
      (simp (open_s, done), simp (open_s, done))
  feed-Absorbed before out (part ∷ parts) stream open_s absorbed hashed =
      let (st, done, absorbed') = laws.absorb-Absorbed before stream.state part absorbed in
      let next : Stream s = record { state = st; finalized = false } in
      let (result, final) =
        feed-Absorbed (before ++ part) out parts next refl absorbed' (rw append_assoc hashed) in
      (simp (open_s, done) result, simp (open_s, done) final)
