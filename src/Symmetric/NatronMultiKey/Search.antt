-- ===== src/Symmetric/NatronMultiKey/Search.antt =====
-- symmetric/natron.hpp: which key of a NatronMultiKey decides.
use sylvite.Common.{
  ℕ, ◌+◌, ◌<◌, ◌≡◌, refl, ap, ◌∙◌, List, [], ◌∷◌, ◌++◌, All, Bytes, Option, none, some, Outcome, ok,
  throw, ◌>>◌, arith, invalid_signature, logic_error, true, false, lt→leb, lt→ltb, le→ltb, throw_if,
  ltb, expired_token_error,
}
use sylvite.Common.Int.{ℤ, to_u64, u64_mod}
use sylvite.Sodium.Environment.{Environment}
use sylvite.Sodium.Codec.{Codec}
use sylvite.Sodium.Secretbox.{Secretbox}
use sylvite.Utils.Variant.{original}
use sylvite.Utils.Base64
use sylvite.Internal.Base.{Base, byte_type, size}
use sylvite.Symmetric.Natron.{decrypt_raw, now_secs, age_secs}
use sylvite.Symmetric.Natron
use sylvite.Symmetric.Natron.Lifetime.{decrypt_ttl}
use sylvite.Symmetric.NatronMultiKey.{catch_invalid, check_age, attempt, try_keys, decrypt}

-- The key does not authenticate the token's bytes.
abbrev pub Rejects : Secretbox → Bytes → Base byte_type → Type 0
Rejects box raw key = decrypt_raw box raw key ≡ throw invalid_signature

attempt-Rejects :
    (box : Secretbox) (env : Environment) (raw : Bytes) (ttl : Option ℤ) (key : Base byte_type)
    → Rejects box raw key
    → attempt box env raw ttl key ≡ throw invalid_signature
unfolding attempt
attempt-Rejects box env raw ttl key h = rw h

pub catch_invalid-check_age :
    (env : Environment) (ts : ℕ) (ttl : Option ℤ) (p : Bytes) (next : Outcome Bytes)
    → catch_invalid (check_age env ts ttl >> ok p) next ≡ (check_age env ts ttl >> ok p)
unfolding check_age
catch_invalid-check_age env ts none p next = refl
catch_invalid-check_age env ts (some ttl) p next =
    elim (ltb (to_u64 ttl) (age_secs (now_secs env) ts))
      as (λ b.
        catch_invalid (throw_if b expired_token_error >> ok p) next
        ≡ (throw_if b expired_token_error >> ok p)) [ true ↦ refl | false ↦ refl ]

try_keys-first :
    (box : Secretbox) (env : Environment) (raw : Bytes) (ttl : Option ℤ)
    (before after : List (Base byte_type)) (key : Base byte_type) (p : Bytes) (ts : ℕ)
    → All (Rejects box raw) before
    → decrypt_raw box raw key ≡ ok (p, ts)
    → try_keys box env raw ttl (before ++ key ∷ after) ≡ (check_age env ts ttl >> ok p)
unfolding try_keys
try_keys-first box env raw ttl [] after key p ts h e =
    rw (e, attempt) (catch_invalid-check_age env ts ttl p _)
try_keys-first box env raw ttl (k ∷ before) after key p ts h e =
    rw (attempt-Rejects box env raw ttl k h.0)
      (try_keys-first box env raw ttl before after key p ts h.1 e)

try_keys_none :
    (box : Secretbox) (env : Environment) (raw : Bytes) (ttl : Option ℤ)
    (keys : List (Base byte_type))
    → All (Rejects box raw) keys
    → try_keys box env raw ttl keys ≡ throw invalid_signature
unfolding try_keys
try_keys_none box env raw ttl [] h = refl
try_keys_none box env raw ttl (k ∷ keys) h =
    rw (attempt-Rejects box env raw ttl k h.0) (try_keys_none box env raw ttl keys h.1)

-- For a token that decodes, the first key in the list that authenticates its bytes, all keys before
-- it throwing an invalid signature, decides: the result is the plaintext under that key if the
-- token's age is within the time to live, or none is given, and otherwise the exception of the age
-- check.
pub decrypt_first :
    (box : Secretbox) (codec : Codec) (env : Environment) (token raw : Bytes) (ttl : Option ℤ)
    (before after : List (Base byte_type)) (key : Base byte_type) (p : Bytes) (ts : ℕ)
    → Base64.decode codec token original ≡ ok raw
    → All (Rejects box raw) before
    → decrypt_raw box raw key ≡ ok (p, ts)
    → decrypt box codec env (record { keys = before ++ key ∷ after }) token ttl
      ≡ (check_age env ts ttl >> ok p)
unfolding decrypt
decrypt_first box codec env token raw ttl before after key p ts decoded h e =
    rw decoded (try_keys-first box env raw ttl before after key p ts h e)

-- A token that decodes and that none of the keys authenticates throws an invalid-signature error.
pub decrypt_no_key :
    (box : Secretbox) (codec : Codec) (env : Environment) (token raw : Bytes) (ttl : Option ℤ)
    (keys : List (Base byte_type))
    → Base64.decode codec token original ≡ ok raw
    → All (Rejects box raw) keys
    → decrypt box codec env (record { keys = keys }) token ttl ≡ throw invalid_signature
unfolding decrypt
decrypt_no_key box codec env token raw ttl keys decoded h =
    rw decoded (try_keys_none box env raw ttl keys h)

-- The two classes differ on a token from the future: with a timestamp more than 60 seconds ahead of the
-- clock, under a key of 32 bytes and with any time to live, Natron throws a logic error where
-- NatronMultiKey with that one key returns the plaintext (the clock's tolerance not wrapping).
pub decrypt_future :
    (box : Secretbox) (codec : Codec) (env : Environment) (token raw : Bytes) (key : Base byte_type)
    (ttl : ℤ) (p : Bytes) (ts : ℕ)
    → now_secs env + 60 < u64_mod
    → size key ≡ 32
    → Base64.decode codec token original ≡ ok raw
    → decrypt_raw box raw key ≡ ok (p, ts)
    → now_secs env + 60 < ts
    → (Natron.decrypt box codec env token key (some ttl) ≡ throw logic_error)
      × (decrypt box codec env (record { keys = key ∷ [] }) token (some ttl) ≡ ok p)
decrypt_future box codec env token raw key ttl p ts clock sized decoded e ahead =
    let young : check_age env ts (some ttl) ≡ ok tt =
      unfold check_age age_secs in
      rw (lt→leb ts (now_secs env) (omega arith), le→ltb (to_u64 ttl) 0 (omega arith)) in
    (
      decrypt_ttl box codec env token raw key ttl p ts clock sized decoded e
          ∙ rw (lt→ltb _ _ ahead),
      decrypt_first box codec env token raw (some ttl) [] [] key p ts decoded tt e
          ∙ ap (λ (r : Outcome (Unit {0})). r >> ok p) young,
    )
