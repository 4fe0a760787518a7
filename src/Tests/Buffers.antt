-- ===== src/Tests/Buffers.antt =====
-- The buffers, texts, codecs and the packer at concrete inputs.
use sylvite.Common.{
  suc, ◌+◌, ◌==◌, ◌^◌, ◌-◌, ◌<◌, some, ◌≡◌, ◌≢◌, ◌↔◌, refl, true, false, [], ◌∷◌, ◌++◌, List, Bytes,
  length, ok, throw, undefined, out_of_range_error, arith,
}
use sylvite.Common.Int.{pos, negsuc}
use sylvite.Internal.Base.Moved.{move, move-text, move_assign}
use sylvite.Types.SecureString.Reused.{run-move}
use sylvite.Types.SecureString.Turns.{turns}
use sylvite.Utils.Console.Ended.{turns-getline}
use sylvite.Internal.Base.{
  Base, byte_type, char_type, size, at, back, equals, wipe, to_bool, span_data, push_back, pop_back,
}
use sylvite.Internal.Base.Iterators.{begin_to_end}
use sylvite.Internal.Base.Text.{holding, at-holding}
use sylvite.Internal.Base.Equality.{equals_iff}
use sylvite.Types.SecureString.{new, getline, swap}
use sylvite.Types.SecureString.Refinement.{Call, push, pop, wiped, run, run-new}
use sylvite.Types.SecureString.Lines.{
  line_start, before_delim, getline_total, getline-line, getline_carriage_return,
}
use sylvite.Types.Nonce.{Nonce, eager}
use sylvite.Types.Nonce.Counter.{increment_times, increment_times-differ}
use sylvite.Utils.Variant.{original}
use sylvite.Utils.Base64
use sylvite.Utils.Base64.{max_bin_len}
use sylvite.Utils.Base64.RoundTrip.{decode-encode}
use sylvite.Utils.Hex
use sylvite.Utils.Hex.RoundTrip.{decode-encode_hex}
use sylvite.Utils.Packer.{pack, unpack}
use sylvite.Utils.Packer.RoundTrip.{unpack-pack, unpack-pack_rest}
use sylvite.Utils.Packer.Split.{unpack-split}
use sylvite.Utils.Packer.Short.{unpack_short}
use sylvite.Tests.Parameters.{codec, coding, memory, memory_laws}

abbrev abc : Bytes
abc = b'a' ∷ b'b' ∷ b'c' ∷ []

abbrev calls : List Call
calls = push b'a' ∷ push b'b' ∷ pop ∷ wiped ∷ pop ∷ push b'c' ∷ []

run-new_example :
    (run calls new ≡ ok (holding (b'c' ∷ [])))
    × (size (holding (b'c' ∷ [])) ≡ 1)
    × (at (holding (b'c' ∷ [])) 0 ≡ ok b'c')
    × (back (holding (b'c' ∷ [])) ≡ ok b'c')
run-new_example = run-new calls 0

at_terminator : at (holding abc) 3 ≡ throw out_of_range_error
at_terminator = at-holding abc 3

getline-line_test :
    getline false (b'a' ∷ b'b' ∷ b';' ∷ b'c' ∷ []) (holding abc) b';'
    ≡ ok (holding (b'a' ∷ b'b' ∷ []), b'c' ∷ [])
getline-line_test =
    getline-line false b';' b'a' (b'b' ∷ []) (b'c' ∷ []) abc refl refl (refl, (refl, tt))

getline_total_example :
    getline true (b'\n' ∷ b'a' ∷ b'b' ∷ b'\n' ∷ b'c' ∷ []) (holding abc) b'\n'
    ≡ ok (holding (b'a' ∷ b'b' ∷ []), b'c' ∷ [])
getline_total_example = getline_total true b'\n' (b'\n' ∷ b'a' ∷ b'b' ∷ b'\n' ∷ b'c' ∷ []) abc

getline_carriage_return_test :
    getline true (b'\r' ∷ b'a' ∷ b'\n' ∷ b'b' ∷ b'\n' ∷ b'c' ∷ []) (holding []) b'\n'
    ≡ ok (holding (b'b' ∷ []), b'c' ∷ [])
getline_carriage_return_test =
    getline_carriage_return b'\n' (b'a' ∷ []) (b'b' ∷ []) (b'c' ∷ []) [] (refl, tt) (refl, tt)

abbrev buffer : Bytes → Base byte_type
buffer bytes = record { vec = bytes }

equals_iff_test : (equals memory (buffer abc) (buffer (b'a' ∷ [])) ≡ true) ↔ (abc ≡ b'a' ∷ [])
equals_iff_test = equals_iff memory_laws (buffer abc) (buffer (b'a' ∷ []))

abbrev counter : Nonce eager
counter = record { buffer = buffer (255 ∷ 255 ∷ []); used = false }

increment_times-differ_example :
    (increment_times memory 1 counter).buffer.vec ≢ (increment_times memory 300 counter).buffer.vec
increment_times-differ_example =
    increment_times-differ memory_laws 1 300 counter (omega arith) (omega arith) (omega arith)

decode-encode_example : Base64.decode codec (Base64.encode codec abc original) original ≡ ok abc
decode-encode_example = decode-encode coding abc original

decode-encode_hex_test :
    (length (Hex.encode codec abc) ≡ 6) × (Hex.decode codec (Hex.encode codec abc) ≡ ok abc)
decode-encode_hex_test = decode-encode_hex coding abc

abbrev parts : List Bytes
parts = abc ∷ [] ∷ (7 ∷ 8 ∷ []) ∷ []

unpack-pack_example : unpack (pos 3 ∷ pos 0 ∷ pos 2 ∷ []) (pack parts) ≡ ok parts
unpack-pack_example = unpack-pack parts (unfold pack in omega arith)

unpack-pack_rest_test :
    unpack (pos 3 ∷ pos 0 ∷ pos 2 ∷ negsuc 0 ∷ []) (pack (parts ++ (9 ∷ []) ∷ []))
    ≡ ok (parts ++ (9 ∷ []) ∷ [])
unpack-pack_rest_test = unpack-pack_rest parts (9 ∷ []) (unfold pack in omega arith)

unpack-split_example :
    unpack (pos 2 ∷ pos 1 ∷ []) (abc ++ b'd' ∷ []) ≡ ok ((b'a' ∷ b'b' ∷ []) ∷ (b'c' ∷ []) ∷ [])
unpack-split_example = unpack-split (2 ∷ 1 ∷ []) (abc ++ b'd' ∷ []) (omega arith)

unpack_short_test : unpack (pos 2 ∷ pos 4 ∷ []) abc ≡ undefined
unpack_short_test = unpack_short (2 ∷ 4 ∷ []) abc (omega arith) (omega arith)

-- Three turns for a String that holds a text, and four, one more than needed, for one that was moved from.
turns-getline_example :
    (turns
        (suc (length (before_delim b'\n' (line_start true (b'a' ∷ b'b' ∷ b'\n' ∷ []))) + 1))
        (λ c. c == b'\n')
        (wipe {T = char_type} (record { vec = [] }))
        (line_start true (b'a' ∷ b'b' ∷ b'\n' ∷ []))
      ≡ some (getline true (b'a' ∷ b'b' ∷ b'\n' ∷ []) (record { vec = [] }) b'\n'))
    × ((turns 3 (λ c. c == b'\n') (wipe (holding abc)) (line_start true (b'a' ∷ b'b' ∷ b'\n' ∷ []))
          ≡ some (getline true (b'a' ∷ b'b' ∷ b'\n' ∷ []) (holding abc) b'\n'))
        ↔ (length (before_delim b'\n' (line_start true (b'a' ∷ b'b' ∷ b'\n' ∷ []))) < 3))
turns-getline_example =
    turns-getline true b'\n' (b'a' ∷ b'b' ∷ b'\n' ∷ []) abc (record { vec = [] }) 1 3

move-text_test :
    let (taken, left) = move (holding abc) in
    (taken ≡ holding abc)
    × (size left ≡ 2 ^ 64 - 1)
    × (to_bool left ≡ true)
    × (at left 7 ≡ undefined)
    × (back left ≡ undefined)
    × (span_data left ≡ undefined)
    × (begin_to_end left ≡ undefined)
    × (push_back left b'd' ≡ undefined)
    × (pop_back left ≡ ok left)
    × (wipe left ≡ left)
move-text_test = move-text (holding abc) 7 b'd' (omega arith)

run-move_example :
    let (taken, left) = move (holding abc) in
    (taken ≡ holding abc)
    × (size left ≡ 2 ^ 64 - 1)
    × (to_bool left ≡ true)
    × (at left 7 ≡ undefined)
    × (run calls left ≡ undefined)
    × (getline true (b'a' ∷ []) left b'\n' ≡ undefined)
    × ((swap left (holding [])).0 ≡ holding [])
    × ((move_assign left (holding [])).0 ≡ holding [])
run-move_example = run-move (holding abc) calls 7 true b'\n' (b'a' ∷ []) (holding []) (omega arith)
