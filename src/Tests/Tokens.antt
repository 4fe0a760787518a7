-- ===== src/Tests/Tokens.antt =====
-- Natron on one token, made at second 1000.
use sylvite.Common.{
  ℕ, ◌+◌, ◌*◌, ◌-◌, ◌^◌, ◌≡◌, refl, [], ◌∷◌, ◌++◌, Bytes, length, replicate, none, some, ok, throw,
  undefined, ◌>>=◌, ◌==◌, if◌then◌else◌, logic_error, invalid_signature, expired_token_error, arith,
}
use sylvite.Common.Int.{pos, negsuc, to_i64}
use sylvite.Utils.Variant.{original}
use sylvite.Utils.Base64
use sylvite.Utils.Base64.RoundTrip.{decode-encode}
use sylvite.Internal.Base.{Base, byte_type, size}
use sylvite.Symmetric.Natron
use sylvite.Symmetric.Natron.{
  decrypt_raw, now_secs, read_u64_be, write_u64_be, time_point, token_timestamp,
}
use sylvite.Symmetric.Natron.Timestamp.{read_u64_be-write_u64_be}
use sylvite.Symmetric.Natron.Token.{Opens}
use sylvite.Symmetric.Natron.Lifetime.{IsTimely, decrypt_ttl}
use sylvite.Symmetric.Natron.RoundTrip.{decrypt-encrypt, token_timestamp-encrypt}
use sylvite.Symmetric.Natron.Decided.{answer as natron_answer, decrypt_decided}
use sylvite.Symmetric.Natron.Stamped.{decrypt-token_timestamp}
use sylvite.Symmetric.Natron.Restamp.{restamp, decrypt-restamp}
use sylvite.Symmetric.Natron.Authentic.{decrypt-Opens}
use sylvite.Tests.Parameters.{clock, box, box_laws, codec, coding}

abbrev pub old_key : Base byte_type
old_key = record { vec = replicate 32 5 }

abbrev pub new_key : Base byte_type
new_key = record { vec = replicate 32 6 }

abbrev pub message : Bytes
message = 1 ∷ 2 ∷ 3 ∷ []

abbrev pub raw : Bytes
raw = 1 ∷ 0 ∷ 0 ∷ 0 ∷ 0 ∷ 0 ∷ 0 ∷ 3 ∷ 232 ∷ (replicate 24 7 ++ (replicate 16 5 ++ message))

abbrev pub token : Bytes
token = Base64.encode codec raw original

pub raw_opens : decrypt_raw box raw old_key ≡ ok (message, 1000)
unfolding decrypt_raw read_u64_be
raw_opens = refl

pub raw_rejected : decrypt_raw box raw new_key ≡ throw invalid_signature
unfolding decrypt_raw
raw_rejected = refl

pub key_sized : size old_key ≡ 32
unfolding size
key_sized = refl

pub token_decodes : Base64.decode codec token original ≡ ok raw
token_decodes = decode-encode coding raw original

token_decrypts : Natron.decrypt box codec (clock 1500) token old_key (some (pos 500)) ≡ ok message
token_decrypts =
    decrypt_ttl box codec (clock 1500) token raw old_key (pos 500) message 1000 (omega arith)
      key_sized token_decodes raw_opens

read_u64_be-write_u64_be_test :
    (length (write_u64_be 1000) ≡ 8) × (read_u64_be (write_u64_be 1000) ≡ 1000)
read_u64_be-write_u64_be_test = read_u64_be-write_u64_be 1000 (omega arith)

decrypt-encrypt_example :
    (t : Bytes) × (Natron.encrypt box codec (clock 1000) message old_key ≡ ok t)
    × (Natron.decrypt box codec (clock 1500) t old_key (some (pos 600)) ≡ ok message)
decrypt-encrypt_example =
    decrypt-encrypt box_laws coding (clock 1000) (clock 1500) message old_key (some (pos 600))
      key_sized (omega arith) (omega arith) (omega arith, omega arith)

token_timestamp-encrypt_test :
    (r : Bytes) × (Natron.encrypt box codec (clock 1000) message old_key
      ≡ ok (coding.base64_text original r))
    × (length r ≡ 49 + 3)
    × (token_timestamp 10 codec (coding.base64_text original r) ≡ ok (pos 10000))
token_timestamp-encrypt_test =
    token_timestamp-encrypt box_laws coding (clock 1000) message old_key 10 key_sized (omega arith)
      (omega arith) (omega arith)

decrypt_ttl_test :
    Natron.decrypt box codec (clock 1500) token old_key (some (pos 499)) ≡ throw expired_token_error
decrypt_ttl_test =
    decrypt_ttl box codec (clock 1500) token raw old_key (pos 499) message 1000 (omega arith)
      key_sized token_decodes raw_opens

decrypt_decided_example : Natron.decrypt box codec (clock 1500) token old_key (some (pos 499)) ≡ (
    if size old_key == 32
    then (Base64.decode codec token original
        >>= natron_answer box (clock 1500) (some (pos 499)) old_key)
    else throw logic_error)
decrypt_decided_example =
    decrypt_decided box codec (clock 1500) token old_key (some (pos 499)) (omega arith)

-- The three answers to the token's bytes: by the right key in time, too late, and by another key.
natron_answers :
    (natron_answer box (clock 1500) (some (pos 500)) old_key raw ≡ ok message)
    × (natron_answer box (clock 1500) (some (pos 499)) old_key raw ≡ throw expired_token_error)
    × (natron_answer box (clock 1500) none new_key raw ≡ throw invalid_signature)
unfolding natron_answer read_u64_be
natron_answers = (refl, refl, refl)

decrypt-Opens_example :
    (size old_key ≡ 32)
    × (r : Bytes) × (ts : ℕ) × (Base64.decode codec token original ≡ ok r)
    × Opens box r old_key message ts
    × IsTimely (clock 1500) ts (some (pos 500))
decrypt-Opens_example =
    decrypt-Opens box codec (clock 1500) token old_key (some (pos 500)) message (omega arith)
      token_decrypts

decrypt-restamp_example :
    Natron.decrypt box codec
      (clock 9000)
      (Base64.encode codec (restamp raw (write_u64_be 9000)) original)
      old_key
      (some (pos 0))
    ≡ ok message
decrypt-restamp_example =
    decrypt-restamp box coding (clock 9000) raw old_key message 1000 (pos 0) key_sized (omega arith)
      raw_opens

decrypt-token_timestamp_example :
    (ts : ℕ) × (token_timestamp 1000000000 codec token ≡ ok (pos (ts * 1000000000)))
    × IsTimely (clock 1500) ts (some (pos 500))
decrypt-token_timestamp_example =
    decrypt-token_timestamp box codec (clock 1500) token old_key (pos 500) message 1000000000
      (omega arith) (omega arith) (omega arith) token_decrypts

-- Nanoseconds in 64 bits: the year 2262 is the last one, and a number above 2 ^ 63 is a time in the past.
time_points :
    (time_point 1000000000 (to_i64 9223372036) ≡ ok (pos 9223372036000000000))
    × (time_point 1000000000 (to_i64 9223372037) ≡ undefined)
    × (time_point 1000000000 (to_i64 (2 ^ 63)) ≡ undefined)
    × (time_point 1000000000 (to_i64 (2 ^ 64 - 1)) ≡ ok (negsuc 999999999))
unfolding time_point
time_points = (refl, refl, refl, refl)
