-- ===== src/Hash/Stream.antt =====
-- hash/hash.hpp: the class Stream of the namespace Sha256, with libsodium's state as a parameter; the
-- streams of the other hashes and of hash/hmac.hpp repeat the code.
pub mod Once
pub mod Parts
pub mod Refinement
use sylvite.Common.{
  Bool, true, Bytes, if◌then◌else◌, none, some, Outcome, ok, throw, logic_error, runtime_error,
}
use sylvite.Sodium.Streaming.{Streaming}

pub record Stream (parts : Streaming) : Type 0 where
  pub state : parts.State
  pub finalized : Bool

module _ (parts : Streaming) where
  -- Both overloads. The stream after the call, and whether it threw.
  unfoldable pub update : Stream parts → Bytes → Stream parts × Outcome (Unit {0})
  update stream bytes =
      if stream.finalized
      then (stream, throw logic_error)
      else elim (parts.absorb stream.state bytes) [
        | none ↦ (stream, throw runtime_error)
        | some st ↦ (record stream { state = st }, ok tt)
      ]

  unfoldable pub finalize : Stream parts → Stream parts × Outcome Bytes
  finalize stream =
      if stream.finalized then (stream, throw logic_error) else elim (parts.final stream.state) [
        | none ↦ (stream, throw runtime_error)
        | some (out, st) ↦ (record { state = st; finalized = true }, ok out)
      ]

  unfoldable pub is_finalized : Stream parts → Bool
  is_finalized stream = stream.finalized
