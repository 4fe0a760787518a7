-- ===== src/Hash/Stream/Once.antt =====
-- hash/hash.hpp and hash/hmac.hpp: what the `finalized_` flag forbids, whatever libsodium would do.
use sylvite.Common.{
  succeeded, room, late, ℕ, ◌+◌, ◌≤◌, List, [], ◌∷◌, Bytes, arith, Bool-cases, Option-cases, inl,
  inr,
}
use sylvite.Sodium.Streaming.{Streaming}
use sylvite.Hash.Stream.{Stream, update, finalize}

-- The calls that a program makes on one stream.
pub data Call : Type 0 where
  updates : Bytes → Call
  finalizes : Call

module _ (parts : Streaming) where
  -- The number of hashes that the calls return, and of updates that succeed after one.
  unfoldable pub outputs : Stream parts → List Call → ℕ
  outputs stream [] = 0
  outputs stream (updates bytes ∷ calls) =
      let (after, done) = update parts stream bytes in
      late stream.finalized (succeeded done) + outputs after calls
  outputs stream (finalizes ∷ calls) =
      let (after, out) = finalize parts stream in succeeded out + outputs after calls

  update_count :
      (stream : Stream parts) (bytes : Bytes)
      → let (after, done) = update parts stream bytes in
        late stream.finalized (succeeded done) + room after.finalized ≤ room stream.finalized
  unfolding update
  update_count stream bytes = elim (Bool-cases stream.finalized) [
    | inl closed ↦ simp closed (omega arith)
    | inr open_s ↦ elim (Option-cases (parts.absorb stream.state bytes)) [
      | inl failed ↦ simp (open_s, failed) (omega arith)
      | inr (st, done) ↦ simp (open_s, done) (omega arith)
    ]
  ]

  finalize_count :
      (stream : Stream parts)
      → let (after, out) = finalize parts stream in
        succeeded out + room after.finalized ≤ room stream.finalized
  unfolding finalize
  finalize_count stream = elim (Bool-cases stream.finalized) [
    | inl closed ↦ simp closed (omega arith)
    | inr open_s ↦ elim (Option-cases (parts.final stream.state)) [
      | inl failed ↦ simp (open_s, failed) (omega arith)
      | inr (r, done) ↦ simp (open_s, done) (omega arith)
    ]
  ]

  -- Whatever calls are made on one stream, they return at most one hash, and no update succeeds after it;
  -- a finalized stream accepts no call at all.
  pub outputs-le :
      (calls : List Call) (stream : Stream parts) → outputs stream calls ≤ room stream.finalized
  unfolding outputs
  outputs-le [] stream = omega arith
  outputs-le (updates bytes ∷ calls) stream =
      omega (arith, update_count stream bytes, outputs-le calls (update parts stream bytes).0)
  outputs-le (finalizes ∷ calls) stream =
      omega (arith, finalize_count stream, outputs-le calls (finalize parts stream).0)
