-- ===== src/Symmetric/Stream.antt =====
-- symmetric/stream.hpp and types/streamheader.hpp: chunks sealed one after the other.
pub mod Session
pub mod Truncated
pub mod Sealed
pub mod Channel
use sylvite.Common.{
  ℕ, ◌+◌, Bool, true, false, not, ◌||◌, Bytes, length, ltb, ◌==◌, if◌then◌else◌, Option, none, some,
  Outcome, ok, throw, undefined, ◌>>=◌, ◌>>◌, throw_if, or_throw, read_at, logic_error,
  runtime_error, invalid_signature,
}
use sylvite.Sodium.Environment.{Environment}
use sylvite.Sodium.Secretstream.{
  Secretstream, crypto_secretstream_headerbytes, crypto_secretstream_abytes,
  crypto_secretstream_keybytes,
}
use sylvite.Internal.Base.{Base, byte_type, size, of_span}

-- StreamHeader(span)
unfoldable pub stream_header : Bytes → Outcome (Base byte_type)
stream_header bytes = do
  throw_if (not (length bytes == crypto_secretstream_headerbytes)) logic_error
  ok (of_span byte_type bytes)

pub record PullResult : Type 0 where
  pub plaintext : Bytes
  pub tag : ℕ

pub record Encryptor (s : Secretstream) : Type 0 where
  pub header : Base byte_type
  pub state : s.State
  pub finalized : Bool

pub record Decryptor (s : Secretstream) : Type 0 where
  pub state : s.State
  pub finalized : Bool

module _ (s : Secretstream) where
  unfoldable pub new_encryptor : Environment → Base byte_type → Outcome (Encryptor s)
  new_encryptor env key = do
    throw_if (not (size key == crypto_secretstream_keybytes)) logic_error
    k ← read_at 0 crypto_secretstream_keybytes key.vec
    let (st, h) = s.init_push k env.randombytes_buf
    ok (record { header = record { vec = h }; state = st; finalized = false })

  -- The encryptor after the call, and the chunk or the exception.
  unfoldable pub update : Encryptor s → Bytes → Encryptor s × Outcome (Base byte_type)
  update e bytes =
      if e.finalized then (e, throw logic_error) else elim (s.push e.state bytes s.tag_message) [
        | none ↦ (e, throw runtime_error)
        | some (c, st) ↦ (record e { state = st }, ok (record { vec = c }))
      ]

  unfoldable pub finalize : Encryptor s → Bytes → Encryptor s × Outcome (Base byte_type)
  finalize e bytes =
      if e.finalized then (e, throw logic_error) else elim (s.push e.state bytes s.tag_final) [
        | none ↦ (e, throw runtime_error)
        | some (c, st) ↦ (record e { state = st; finalized = true }, ok (record { vec = c }))
      ]

  unfoldable pub new_decryptor : Base byte_type → Base byte_type → Outcome (Decryptor s)
  new_decryptor key header = do
    throw_if (not (size key == crypto_secretstream_keybytes)) logic_error
    h ← read_at 0 crypto_secretstream_headerbytes header.vec
    k ← read_at 0 crypto_secretstream_keybytes key.vec
    st ← or_throw (s.init_pull h k) runtime_error
    ok (record { state = st; finalized = false })

  -- The decryptor after the call, and the chunk's plaintext and tag or the exception.
  unfoldable pub pull : Decryptor s → Bytes → Decryptor s × Outcome PullResult
  pull d chunk =
      if d.finalized
      then (d, throw logic_error)
      else if ltb (length chunk) crypto_secretstream_abytes
      then (d, throw logic_error)
      else elim (s.pull d.state chunk) [
        | none ↦ (d, throw invalid_signature)
        | some (m, tag, st) ↦ (
          record { state = st; finalized = d.finalized || tag == s.tag_final },
          ok (record { plaintext = m; tag = tag }),
        )
      ]

  -- Encryptor::finalized() and Decryptor::finalized()
  unfoldable pub encryptor_finalized : Encryptor s → Bool
  encryptor_finalized e = e.finalized

  unfoldable pub decryptor_finalized : Decryptor s → Bool
  decryptor_finalized d = d.finalized

  -- Encryptor::header()
  unfoldable pub header : Encryptor s → Base byte_type
  header e = e.header
