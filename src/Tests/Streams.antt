-- ===== src/Tests/Streams.antt =====
-- A session of three chunks, and calls on a finalized stream.
use sylvite.Common.{◌≤◌, ◌≡◌, refl, false, List, [], ◌∷◌, ◌++◌, Bytes, replicate, ok, arith}
use sylvite.Internal.Base.{Base, byte_type, size}
use sylvite.Symmetric.Stream.{
  Encryptor, Decryptor, new_encryptor, new_decryptor, update, finalize, pull,
}
use sylvite.Symmetric.Stream.Session.{tagged, session-Delivers, Delivers}
use sylvite.Symmetric.Stream.Truncated.{Withholds, session-Withholds}
use sylvite.Symmetric.Stream.Sealed.{
  updates, finalizes, finals, finals-le, pulled_finals, pulled_finals-le,
}
use sylvite.Symmetric.Stream.Channel.{
  Link, updates as seal, finalizes as seal_last, delivers, injects, start, next, connect, pulled_by,
  sealed_by,
}
use sylvite.Symmetric.Stream.Channel.InOrder.{InOrder, reached-InOrder}
use sylvite.Tests.Parameters.{clock, streams, stream_laws}

abbrev key : Base byte_type
key = record { vec = replicate 32 5 }

abbrev chunks : List Bytes
chunks = (1 ∷ 2 ∷ []) ∷ [] ∷ []

session-Delivers_example :
    (e : Encryptor streams) × (new_encryptor streams (clock 0) key ≡ ok e)
    × (d : Decryptor streams) × (new_decryptor streams key e.header ≡ ok d)
    × (e.finalized ≡ false)
    × (d.finalized ≡ false)
    × Delivers streams e d chunks (3 ∷ [])
unfolding size
session-Delivers_example =
    session-Delivers stream_laws (clock 0) key chunks (3 ∷ []) refl (omega arith, (omega arith, tt))
      (omega arith)

session-Withholds_example :
    (e : Encryptor streams) × (d : Decryptor streams) × (new_encryptor streams (clock 0) key ≡ ok e)
    × (new_decryptor streams key e.header ≡ ok d)
    × Withholds streams e d ((1 ∷ 2 ∷ []) ∷ []) ([] ∷ []) (3 ∷ [])
unfolding size
session-Withholds_example =
    session-Withholds stream_laws (clock 0) key ((1 ∷ 2 ∷ []) ∷ []) ([] ∷ []) (3 ∷ []) refl
      (omega arith, (omega arith, tt)) (omega arith)

abbrev sender : Encryptor streams
sender = record { header = record { vec = replicate 24 0 }; state = 5; finalized = false }

abbrev receiver : Decryptor streams
receiver = record { state = 5; finalized = false }

finals-le_test :
    finals streams sender (updates [] ∷ finalizes [] ∷ finalizes [] ∷ updates [] ∷ []) ≤ 1
finals-le_test =
    finals-le streams (updates [] ∷ finalizes [] ∷ finalizes [] ∷ updates [] ∷ []) sender

pulled_finals-le_test :
    pulled_finals streams receiver ((3 ∷ 5 ∷ replicate 15 0) ∷ (3 ∷ 6 ∷ replicate 15 0) ∷ []) ≤ 1
pulled_finals-le_test =
    pulled_finals-le streams ((3 ∷ 5 ∷ replicate 15 0) ∷ (3 ∷ 6 ∷ replicate 15 0) ∷ []) receiver

-- A connection: a chunk is sealed, a foreign one is rejected, the chunk is pulled, and the last is
-- sealed and on its way when one more is refused.
abbrev connected : Link streams
connected = record {
  sender = record { header = record { vec = replicate 24 0 }; state = 5; finalized = false };
  channel = [];
  receiver = record { state = 5; finalized = false };
  sent = [];
  received = [];
}

abbrev foreign : Bytes
foreign = replicate 20 9

abbrev sealed_one : Link streams
sealed_one =
    sealed_by streams (update streams connected.sender (1 ∷ [])) (tagged streams 0 (1 ∷ []))
      connected

abbrev injected : Link streams
injected = pulled_by streams (pull streams sealed_one.receiver foreign) sealed_one

abbrev sealed_last : Link streams
sealed_last = sealed_by streams (finalize streams injected.sender []) (tagged streams 3 []) injected

abbrev refused : Link streams
refused = sealed_by streams (update streams sealed_last.sender []) (tagged streams 0 []) sealed_last

abbrev chunk_one : Bytes
chunk_one = 0 ∷ 5 ∷ (replicate 15 0 ++ 1 ∷ [])

abbrev chunk_last : Bytes
chunk_last = 3 ∷ 6 ∷ replicate 15 0

abbrev pulled_one : Link streams
pulled_one =
    pulled_by streams (pull streams refused.receiver chunk_one)
      (record refused { channel = chunk_last ∷ [] })

reached-InOrder_example : InOrder streams pulled_one
unfolding size sealed_by pulled_by update finalize pull connect new_encryptor new_decryptor
reached-InOrder_example = reached-InOrder stream_laws (clock 0) key connected pulled_one refl (
    next {u = refused}
      (next {u = sealed_last}
        (next {u = injected}
          (next {u = sealed_one} (next {u = connected} start (seal (1 ∷ [])))
            (injects foreign refl))
          (seal_last []))
        (seal []))
      (delivers chunk_one (chunk_last ∷ []) refl))
