-- ===== src/Tests/Keyrings.antt =====
-- NatronMultiKey on the token of Tests.Tokens, and what a handler gets.
use sylvite.Common.{
  ◌≡◌, ◌↔◌, ◌∙◌, ◌+◌, ◌<◌, sym, ap, drop, refl, [], ◌∷◌, Bytes, none, some, ok, throw, ◌>>◌, ◌>>=◌,
  logic_error, invalid_signature, arith,
}
use sylvite.Common.Int.{pos, u64_mod}
use sylvite.Utils.Variant.{original}
use sylvite.Utils.Base64
use sylvite.Internal.Base.{Base, byte_type, size}
use sylvite.Exceptions.{what, of_string, of_c_string}
use sylvite.Exceptions.Handled.{Handled, decrypt-Handled, what-of_string}
use sylvite.Symmetric.Natron
use sylvite.Symmetric.Natron.{decrypt_raw, now_secs, read_u64_be, write_u64_be}
use sylvite.Symmetric.NatronMultiKey
use sylvite.Symmetric.NatronMultiKey.{NatronMultiKey, new, check_age, rotate}
use sylvite.Symmetric.NatronMultiKey.Search.{decrypt_first, decrypt_no_key, decrypt_future}
use sylvite.Symmetric.NatronMultiKey.Decided.{answer, decrypt-new}
use sylvite.Symmetric.NatronMultiKey.Order.{verdict, decrypt-same_keys}
use sylvite.Symmetric.NatronMultiKey.Member.{Reads}
use sylvite.Symmetric.Natron.Authentic.{decrypt-Opens}
use sylvite.Sodium.Environment.{Environment}
use mathlib.Core.List.{Memᴰ}
use mathlib.Core.List.Memᴰ.{head, tail}
use sylvite.Common.{List, replicate}
use sylvite.Symmetric.Natron.Decided.{answer as natron_answer, decrypt_decided}
use sylvite.Symmetric.NatronMultiKey.Succession.{Shift, rotations, decrypt-rotations}
use sylvite.Tests.Parameters.Sealing.{opened_drops}
use sylvite.Symmetric.NatronMultiKey.Rotation.{decrypt-rotate}
use sylvite.Tests.Parameters.{clock, box, box_laws, codec, coding}
use sylvite.Tests.Tokens.{
  old_key, new_key, message, raw, token, raw_opens, raw_rejected, key_sized, token_decodes,
}

abbrev both : NatronMultiKey
both = record { keys = new_key ∷ old_key ∷ [] }

decrypt_first_test :
    NatronMultiKey.decrypt box codec (clock 1500) both token none ≡ (ok tt >> ok message)
unfolding check_age
decrypt_first_test =
    decrypt_first box codec (clock 1500) token raw none (new_key ∷ []) [] old_key message 1000
      token_decodes (raw_rejected, tt) raw_opens

both-decrypt : NatronMultiKey.decrypt box codec (clock 1500) both token none ≡ ok message
unfolding check_age
both-decrypt =
    decrypt_first box codec (clock 1500) token raw none (new_key ∷ []) [] old_key message 1000
      token_decodes (raw_rejected, tt) raw_opens

decrypt_no_key_test :
    NatronMultiKey.decrypt box codec (clock 1500) (record { keys = new_key ∷ [] }) token none
    ≡ throw invalid_signature
decrypt_no_key_test =
    decrypt_no_key box codec (clock 1500) token raw none (new_key ∷ []) token_decodes
      (raw_rejected, tt)

decrypt_future_test :
    (Natron.decrypt box codec (clock 900) token old_key (some (pos 5)) ≡ throw logic_error)
    × (NatronMultiKey.decrypt box codec
          (clock 900)
          (record { keys = old_key ∷ [] })
          token
          (some (pos 5))
        ≡ ok message)
decrypt_future_test =
    decrypt_future box codec (clock 900) token raw old_key (pos 5) message 1000 (omega arith)
      key_sized token_decodes raw_opens (omega arith)

both_accepted : new (new_key ∷ old_key ∷ []) ≡ ok both
unfolding new size
both_accepted = refl

decrypt-rotate_example :
    (t : Bytes) × (rotate box codec (clock 1500) (clock 1501) both token none ≡ ok t)
    × (Natron.decrypt box codec (clock 1600) t new_key (some (pos 99)) ≡ ok message)
decrypt-rotate_example =
    decrypt-rotate box_laws coding (clock 1500) (clock 1501) (clock 1600) new_key (old_key ∷ [])
      both token message none (some (pos 99)) both_accepted both-decrypt (omega arith) (omega arith)
      (omega arith, omega arith)

decrypt-new_example :
    NatronMultiKey.decrypt box codec (clock 1500) both token none
    ≡ (Base64.decode codec token original >>= answer box (clock 1500) none (new_key ∷ old_key ∷ []))
decrypt-new_example =
    decrypt-new box codec (clock 1500) new_key (old_key ∷ []) both token none both_accepted

answer-raw : answer box (clock 1500) none (new_key ∷ old_key ∷ []) raw ≡ ok message
unfolding answer check_age
answer-raw = refl

-- The same two keys, the old one first and twice.
abbrev doubled : NatronMultiKey
doubled = record { keys = old_key ∷ new_key ∷ old_key ∷ [] }

doubled_accepted : new (old_key ∷ new_key ∷ old_key ∷ []) ≡ ok doubled
unfolding new size
doubled_accepted = refl

doubled-same :
    (k : Base byte_type)
    → Memᴰ k (new_key ∷ old_key ∷ []) ↔ Memᴰ k (old_key ∷ new_key ∷ old_key ∷ [])
doubled-same k = (forth, back)
  where
    forth : Memᴰ k (new_key ∷ old_key ∷ []) → Memᴰ k (old_key ∷ new_key ∷ old_key ∷ [])
    forth (head e) = tail (head e)
    forth (tail (head e)) = head e
    forth (tail (tail h)) = elim h [ ]

    back : Memᴰ k (old_key ∷ new_key ∷ old_key ∷ []) → Memᴰ k (new_key ∷ old_key ∷ [])
    back (head e) = tail (head e)
    back (tail (head e)) = head e
    back (tail (tail (head e))) = tail (head e)
    back (tail (tail (tail h))) = elim h [ ]

decrypt-same_keys_example :
    verdict (NatronMultiKey.decrypt box codec (clock 1500) both token none)
    ≡ verdict (NatronMultiKey.decrypt box codec (clock 1500) doubled token none)
decrypt-same_keys_example =
    decrypt-same_keys box codec (clock 1500) new_key old_key (old_key ∷ []) (new_key ∷ old_key ∷ [])
      both doubled token none both_accepted doubled_accepted doubled-same

decrypt-Handled_example :
    Handled (Natron.decrypt box codec (clock 1500) token new_key none)
    × Handled (NatronMultiKey.decrypt box codec (clock 1500) both token none)
decrypt-Handled_example =
    decrypt-Handled box codec (clock 1500) token new_key new_key (old_key ∷ []) both none
      (omega arith) both_accepted

-- A zero byte ends the message that a handler reads.
what-of_string_test :
    (what (of_string logic_error (b'n' ∷ b'o' ∷ 0 ∷ b'!' ∷ [])) ≡ b'n' ∷ b'o' ∷ [])
    × (what (of_c_string logic_error (b'n' ∷ b'o' ∷ 0 ∷ b'!' ∷ [])) ≡ b'n' ∷ b'o' ∷ [])
what-of_string_test = what-of_string logic_error (b'n' ∷ b'o' ∷ 0 ∷ b'!' ∷ [])

-- From the old key to the new one, and from that to a third.
abbrev third_key : Base byte_type
third_key = record { vec = replicate 32 8 }

abbrev shifts : List Shift
shifts =
    record { active = new_key; others = old_key ∷ []; env = clock 1500; later = clock 1501 }
    ∷ record { active = third_key; others = new_key ∷ []; env = clock 1600; later = clock 1601 }
    ∷ []

third_accepted : new (third_key ∷ new_key ∷ []) ≡ ok (record { keys = third_key ∷ new_key ∷ [] })
unfolding new size
third_accepted = refl

answer-old_key : natron_answer box (clock 1700) none old_key raw ≡ ok message
unfolding natron_answer
answer-old_key = refl

token_opens : Natron.decrypt box codec (clock 1700) token old_key none ≡ ok message
unfolding size
token_opens =
    decrypt_decided box codec (clock 1700) token old_key none (omega arith)
    ∙ rw token_decodes answer-old_key

-- Opening is the same under every key, so no key opens a token to another plaintext.
token-Reads :
    (env : Environment) (keys : List (Base byte_type)) (t m : Bytes) (key : Base byte_type)
    → now_secs env + 60 < u64_mod
    → Natron.decrypt box codec env t key none ≡ ok m
    → Reads box codec keys t m
token-Reads env keys t m key fits e version rest k p decoded there opened =
    let (_, raw, ts, decoded', opens, _) = decrypt-Opens box codec env t key none m fits e in
    let same : ok (1 ∷ opens.rest) ≡ ok (version ∷ rest) =
      ap ok (sym opens.versioned) ∙ sym decoded' ∙ decoded in
    let rests : opens.rest ≡ rest = cc in
    opened_drops k.vec (drop 32 rest) p opened
    ∙ ap (λ (r : Bytes). drop 16 (drop 32 r)) (sym rests)
    ∙ sym (opened_drops key.vec (drop 32 opens.rest) m opens.authentic)

-- The rotated token is under the new key.
rotated-Reads :
    (token' : Bytes)
    → rotate box codec (clock 1500) (clock 1501) both token none ≡ ok token'
    → Reads box codec (third_key ∷ new_key ∷ []) token' message
rotated-Reads token' e =
    let (moved, rotated, opens) =
      decrypt-rotate box_laws coding (clock 1500) (clock 1501) (clock 1700) new_key (old_key ∷ [])
        both token message none none both_accepted both-decrypt (omega arith) (omega arith) tt in
    let same : moved ≡ token' = cc in
    token-Reads (clock 1700) (third_key ∷ new_key ∷ []) token' message new_key (omega arith)
      (rw (← same) opens)

decrypt-rotations_example :
    (token' : Bytes) × (rotations box codec shifts token ≡ ok token')
    × (Natron.decrypt box codec (clock 1700) token' third_key none ≡ ok message)
decrypt-rotations_example =
    decrypt-rotations box_laws coding (clock 1700) (omega arith) shifts old_key token message
      token_opens (omega arith)
      (
        both,
        both_accepted,
        tail (head refl),
        token-Reads (clock 1700) (new_key ∷ old_key ∷ []) token message old_key (omega arith)
            token_opens,
        λ token' rotated. (
          record { keys = third_key ∷ new_key ∷ [] },
          third_accepted,
          tail (head refl),
          rotated-Reads token' rotated,
          λ token'' again. tt,
        ),
      )
