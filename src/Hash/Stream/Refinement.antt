-- ===== src/Hash/Stream/Refinement.antt =====
-- hash/hash.hpp and hash/hmac.hpp: the streams refine a buffer of bytes that is hashed once.
use sylvite.Common.{
  ◌≡◌, refl, Bool, true, false, List, [], ◌∷◌, ◌++◌, Bytes, Option, some, Outcome, ok, throw,
  logic_error,
}
use sylvite.Sodium.Streaming.{Streaming, StreamingLaws}
use sylvite.Hash.Stream.{Stream, update, finalize}
use sylvite.Hash.Stream.Once.{Call, updates, finalizes}

-- How a call is answered.
pub data Reply : Type 0 where
  updated : Outcome (Unit {0}) → Reply
  returned : Outcome Bytes → Reply

-- The answers to calls on a stream, one after the other.
unfoldable pub replies : (s : Streaming) → Stream s → List Call → List Reply
replies s stream [] = []
replies s stream (updates bytes ∷ calls) =
    let (after, done) = update s stream bytes in updated done ∷ replies s after calls
replies s stream (finalizes ∷ calls) =
    let (after, out) = finalize s stream in returned out ∷ replies s after calls

-- The specification: the bytes so far, and whether they have been hashed.
unfoldable pub spec_replies : (Bytes → Outcome Bytes) → Bytes → Bool → List Call → List Reply
spec_replies hash m closed [] = []
spec_replies hash m true (updates bytes ∷ calls) =
    updated (throw logic_error) ∷ spec_replies hash m true calls
spec_replies hash m false (updates bytes ∷ calls) =
    updated (ok tt) ∷ spec_replies hash (m ++ bytes) false calls
spec_replies hash m true (finalizes ∷ calls) =
    returned (throw logic_error) ∷ spec_replies hash m true calls
spec_replies hash m false (finalizes ∷ calls) = returned (hash m) ∷ spec_replies hash m true calls

module _ {s : Streaming} {whole : Bytes → Option Bytes} (laws : StreamingLaws s whole)
    (hash : Bytes → Outcome Bytes)
    (total : (m : Bytes) → (out : Bytes) × (whole m ≡ some out) × (hash m ≡ ok out)) where
  replies-closed :
      (m : Bytes) (st : s.State) (calls : List Call)
      → replies s (record { state = st; finalized = true }) calls ≡ spec_replies hash m true calls
  unfolding replies spec_replies update finalize
  replies-closed m st [] = refl
  replies-closed m st (updates bytes ∷ calls) = rw (replies-closed m st calls)
  replies-closed m st (finalizes ∷ calls) = rw (replies-closed m st calls)

  pub replies-open :
      (m : Bytes) (st : s.State) (calls : List Call)
      → laws.Absorbed m st
      → replies s (record { state = st; finalized = false }) calls ≡ spec_replies hash m false calls
  unfolding replies spec_replies update finalize
  replies-open m st [] absorbed = refl
  replies-open m st (updates bytes ∷ calls) absorbed =
      let (st', done, absorbed') = laws.absorb-Absorbed m st bytes absorbed in
      rw (done, replies-open (m ++ bytes) st' calls absorbed')
  replies-open m st (finalizes ∷ calls) absorbed =
      let (out, hashed, answer) = total m in
      let (st', done) = laws.final-Absorbed m out st absorbed hashed in
      rw (done, answer, replies-closed m st' calls)
