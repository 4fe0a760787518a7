-- ===== src/Symmetric/Natron/Lifetime.antt =====
-- symmetric/natron.hpp: which ages the check of the time to live accepts.
use sylvite.Common.{
  ℕ, ◌+◌, ◌%◌, ◌≤◌, ◌<◌, ◌≡◌, ◌∙◌, refl, Bytes, Option, none, some, ok, throw, arith, logic_error,
  expired_token_error, lt→ltb, le→ltb, eq→==, if◌then◌else◌, ltb, ltb→lt, ltb→ge, Bool-cases, inl,
  inr,
}
use sylvite.Common.Int.{ℤ, to_u64, u64_mod}
use sylvite.Sodium.Environment.{Environment}
use sylvite.Sodium.Codec.{Codec}
use sylvite.Sodium.Secretbox.{Secretbox}
use sylvite.Utils.Variant.{original}
use sylvite.Utils.Base64
use sylvite.Internal.Base.{Base, byte_type, size}
use sylvite.Symmetric.Natron.{check_ttl, age_secs, now_secs, decrypt, decrypt_raw, validate_key}

-- A timestamp is at most a minute ahead of the clock, and at most the time to live behind it.
abbrev pub IsTimely : Environment → ℕ → Option ℤ → Type 0
IsTimely env ts none = Unit {0}
IsTimely env ts (some ttl) = (ts ≤ now_secs env + 60) × (now_secs env ≤ ts + to_u64 ttl)

pub check_ttl-ok :
    (env : Environment) (ts : ℕ) (ttl : Option ℤ)
    → now_secs env + 60 < u64_mod
    → IsTimely env ts ttl
    → check_ttl env ts ttl ≡ ok tt
unfolding check_ttl
check_ttl-ok env ts none h t = refl
check_ttl-ok env ts (some ttl) h t =
    let wrapped : (now_secs env + 60) % u64_mod ≡ now_secs env + 60 = omega arith in
    let age : age_secs (now_secs env) ts ≤ to_u64 ttl = unfold age_secs in ground arith in
    rw (wrapped, le→ltb _ _ t.0, le→ltb _ _ age)

pub check_ttl_future :
    (env : Environment) (ts : ℕ) (ttl : ℤ)
    → now_secs env + 60 < u64_mod
    → now_secs env + 60 < ts
    → check_ttl env ts (some ttl) ≡ throw logic_error
unfolding check_ttl
check_ttl_future env ts ttl h ahead =
    let wrapped : (now_secs env + 60) % u64_mod ≡ now_secs env + 60 = omega arith in
    rw (wrapped, lt→ltb _ _ ahead)

pub check_ttl_expired :
    (env : Environment) (ts : ℕ) (ttl : ℤ)
    → now_secs env + 60 < u64_mod
    → ts + to_u64 ttl < now_secs env
    → check_ttl env ts (some ttl) ≡ throw expired_token_error
unfolding check_ttl
check_ttl_expired env ts ttl h old =
    let wrapped : (now_secs env + 60) % u64_mod ≡ now_secs env + 60 = omega arith in
    let ahead : ts ≤ now_secs env + 60 = omega arith in
    let age : to_u64 ttl < age_secs (now_secs env) ts = unfold age_secs in ground arith in
    rw (wrapped, le→ltb _ _ ahead, lt→ltb _ _ age)

-- The whole check, for a clock that the tolerance does not wrap.
pub check_ttl_decided :
    (env : Environment) (ts : ℕ) (ttl : ℤ)
    → now_secs env + 60 < u64_mod
    → check_ttl env ts (some ttl) ≡ (
        if ltb (now_secs env + 60) ts
        then throw logic_error
        else if ltb (ts + to_u64 ttl) (now_secs env)
        then throw expired_token_error
        else ok tt)
check_ttl_decided env ts ttl h = elim (Bool-cases (ltb (now_secs env + 60) ts)) [
  | inl ahead ↦ check_ttl_future env ts ttl h (ltb→lt _ _ ahead) ∙ rw ahead refl
  | inr soon ↦ elim (Bool-cases (ltb (ts + to_u64 ttl) (now_secs env))) [
    | inl old ↦ check_ttl_expired env ts ttl h (ltb→lt _ _ old) ∙ rw (soon, old) refl
    | inr young ↦
        check_ttl-ok env ts (some ttl) h (ltb→ge _ _ soon, ltb→ge _ _ young) ∙ rw (soon, young) refl
  ]
]

-- What a call with a time to live does, for a clock that the tolerance does not wrap, a key of 32
-- bytes, and a token whose bytes open under the key to a plaintext and a timestamp: it throws a logic
-- error for a timestamp more than 60 seconds ahead, then an expired-token error for one older than the
-- time to live, and otherwise returns the plaintext.
pub decrypt_ttl :
    (box : Secretbox) (codec : Codec) (env : Environment) (token raw : Bytes) (key : Base byte_type)
    (ttl : ℤ) (plaintext : Bytes) (ts : ℕ)
    → now_secs env + 60 < u64_mod
    → size key ≡ 32
    → Base64.decode codec token original ≡ ok raw
    → decrypt_raw box raw key ≡ ok (plaintext, ts)
    → decrypt box codec env token key (some ttl) ≡ (
        if ltb (now_secs env + 60) ts
        then throw logic_error
        else if ltb (ts + to_u64 ttl) (now_secs env)
        then throw expired_token_error
        else ok plaintext)
unfolding decrypt validate_key
decrypt_ttl box codec env token raw key ttl plaintext ts h sized decoded opened =
    elim (Bool-cases (ltb (now_secs env + 60) ts)) [
      | inl ahead ↦ rw (
        eq→== _ _ sized,
        decoded,
        opened,
        check_ttl_future env ts ttl h (ltb→lt _ _ ahead),
        ahead,
      )
      | inr soon ↦ elim (Bool-cases (ltb (ts + to_u64 ttl) (now_secs env))) [
        | inl old ↦ rw (
          eq→== _ _ sized,
          decoded,
          opened,
          check_ttl_expired env ts ttl h (ltb→lt _ _ old),
          soon,
          old,
        )
        | inr young ↦
            let timely = check_ttl-ok env ts (some ttl) h (ltb→ge _ _ soon, ltb→ge _ _ young) in
            rw (eq→== _ _ sized, decoded, opened, timely, soon, young)
      ]
    ]
