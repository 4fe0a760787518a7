-- ===== src/Symmetric/Natron/Authentic.antt =====
-- symmetric/natron.hpp: what a successful decryption vouches for.
use sylvite.Common.{
  ℕ, ◌+◌, ◌<◌, ◌≡◌, Bytes, Option, none, some, ok, >>=-eq-ok, arith, Bool-cases, inl, inr, ltb,
  ltb→lt, ltb→ge,
}
use sylvite.Common.Int.{ℤ, to_u64, u64_mod}
use sylvite.Sodium.Environment.{Environment}
use sylvite.Sodium.Codec.{Codec}
use sylvite.Sodium.Secretbox.{Secretbox}
use sylvite.Utils.Variant.{original}
use sylvite.Utils.Base64
use sylvite.Internal.Base.{Base, byte_type, size}
use sylvite.Symmetric.Natron.Token.{Opens, decrypt_raw-Opens}
use sylvite.Symmetric.Natron.Lifetime.{IsTimely, check_ttl_future, check_ttl_expired}
use sylvite.Symmetric.Natron.{decrypt, decrypt_raw, validate_key, check_ttl, now_secs}

check_ttl-IsTimely :
    (env : Environment) (ts : ℕ) (ttl : Option ℤ) (u : Unit {0})
    → now_secs env + 60 < u64_mod
    → check_ttl env ts ttl ≡ ok u
    → IsTimely env ts ttl
check_ttl-IsTimely env ts none u h e = tt
check_ttl-IsTimely env ts (some ttl) u h e = elim (Bool-cases (ltb (now_secs env + 60) ts)) [
  | inl ahead ↦ cc (e, check_ttl_future env ts ttl h (ltb→lt _ _ ahead))
  | inr soon ↦ elim (Bool-cases (ltb (ts + to_u64 ttl) (now_secs env))) [
    | inl old ↦ cc (e, check_ttl_expired env ts ttl h (ltb→lt _ _ old))
    | inr young ↦ (ltb→ge _ _ soon, ltb→ge _ _ young)
  ]
]

validate_key-size : (key : Base byte_type) (u : Unit {0}) → validate_key key ≡ ok u → size key ≡ 32
unfolding validate_key
validate_key-size key u e = ground arith

-- A call that returns a plaintext had a key of 32 bytes and a token that decodes to bytes with version
-- 1, a timestamp, a nonce and a sealed box that libsodium opens, under that nonce and key, to that
-- plaintext; and the timestamp was timely for the time to live, if one was given (the clock's tolerance
-- not wrapping).
pub decrypt-Opens :
    (box : Secretbox) (codec : Codec) (env : Environment) (token : Bytes) (key : Base byte_type)
    (ttl : Option ℤ) (plaintext : Bytes)
    → now_secs env + 60 < u64_mod
    → decrypt box codec env token key ttl ≡ ok plaintext
    → (size key ≡ 32)
      × (raw : Bytes) × (ts : ℕ) × (Base64.decode codec token original ≡ ok raw)
      × Opens box raw key plaintext ts
      × IsTimely env ts ttl
unfolding decrypt
decrypt-Opens box codec env token key ttl plaintext clock e =
    let (u, valid, e₁) = >>=-eq-ok (validate_key key) _ e in
    let sized = validate_key-size key u valid in
    let (raw, decoded, e₂) = >>=-eq-ok (Base64.decode codec token original) _ e₁ in
    let (pt, opened, e₃) = >>=-eq-ok (decrypt_raw box raw key) _ e₂ in
    let (w, checked, e₄) = >>=-eq-ok (check_ttl env pt.1 ttl) _ e₃ in
    let same : decrypt_raw box raw key ≡ ok (plaintext, pt.1) = cc in
    (
      sized,
      raw,
      pt.1,
      decoded,
      decrypt_raw-Opens box raw key plaintext pt.1 sized same,
      check_ttl-IsTimely env pt.1 ttl w clock checked,
    )
