-- ===== src/Symmetric/Natron/Decided.antt =====
-- symmetric/natron.hpp: what Natron answers to every token.
use sylvite.Common.{
  ℕ, suc, ◌≤◌, ◌≡◌, refl, sym, ap, ◌∙◌, [], ◌∷◌, Bytes, length, take, drop, Bool, true, false, ◌&&◌,
  leb, ltb, ◌==◌, ==_iff, if◌then◌else◌, Option, Option-cases, none, some, Outcome, ok, throw, ◌>>◌,
  ◌>>=◌, or_throw, arith, Bool-cases, inl, inr, length-take, length-drop, invalid_signature,
  logic_error,
}
use mathlib.Core.Path.{fun_ext}
use sylvite.Common.Int.{ℤ}
use sylvite.Sodium.Environment.{Environment}
use sylvite.Sodium.Codec.{Codec}
use sylvite.Sodium.Secretbox.{Secretbox}
use sylvite.Utils.Variant.{original}
use sylvite.Utils.Base64
use sylvite.Internal.Base.{Base, byte_type, size}
use sylvite.Symmetric.Natron.{decrypt_raw, read_u64_be, decrypt, validate_key, check_ttl, now_secs}
use sylvite.Symmetric.Natron.Lifetime.{check_ttl_decided}
use sylvite.Common.{expired_token_error, ◌+◌, ◌<◌}
use sylvite.Common.Int.{to_u64, u64_mod}
use sylvite.Symmetric.Natron.Token.{layout-parts, decrypt_raw-layout}

-- At least 49 bytes, the first of which is the version 1.
abbrev pub is_token : Bytes → Bool
is_token [] = false
is_token (version ∷ rest) = leb 48 (length rest) && version == 1

pub token_parts :
    (version : ℕ) (rest : Bytes)
    → is_token (version ∷ rest) ≡ true
    → (version ≡ 1) × (48 ≤ length rest)
token_parts version rest h = (ground arith, ground arith)

-- The specification of the checks on an opened token: without a time to live there are none.
unfoldable pub aged : Environment → Option ℤ → ℕ → Bytes → Outcome Bytes
aged env none ts plaintext = ok plaintext
aged env (some ttl) ts plaintext =
    if ltb (now_secs env + 60) ts
    then throw logic_error
    else if ltb (ts + to_u64 ttl) (now_secs env)
    then throw expired_token_error
    else ok plaintext

checks-aged :
    (env : Environment) (ttl : Option ℤ) (ts : ℕ) (p : Bytes)
    → now_secs env + 60 < u64_mod
    → (check_ttl env ts ttl >> ok p) ≡ aged env ttl ts p
unfolding aged
checks-aged env none ts p h = unfold check_ttl in refl
checks-aged env (some ttl) ts p h =
    rw (check_ttl_decided env ts ttl h) (elim (Bool-cases (ltb (now_secs env + 60) ts)) [
      | inl ahead ↦ rw ahead refl
      | inr soon ↦ elim (Bool-cases (ltb (ts + to_u64 ttl) (now_secs env))) [
        | inl old ↦ rw (soon, old) refl
        | inr young ↦ rw (soon, young) refl
      ]
    ])

module _ (box : Secretbox) where
  pub decrypt_raw-malformed :
      (raw : Bytes) (key : Base byte_type)
      → is_token raw ≡ false
      → decrypt_raw box raw key ≡ throw logic_error
  unfolding decrypt_raw
  decrypt_raw-malformed [] key h = refl
  decrypt_raw-malformed (version ∷ rest) key h = elim (Bool-cases (ltb (suc (length rest)) 49)) [
    | inl short ↦ rw short
    | inr long ↦
        let enough : leb 48 (length rest) ≡ true = ground arith in
        let other : (version == 1) ≡ false = rw enough at h in rw (long, other)
  ]

  pub decrypt_raw-token :
      (rest : Bytes) (key : Base byte_type)
      → 48 ≤ length rest
      → size key ≡ 32
      → decrypt_raw box (1 ∷ rest) key ≡ (
          or_throw
            (box.crypto_secretbox_open_easy (drop 32 rest) (take 24 (drop 8 rest)) key.vec)
            invalid_signature
          >>= λ p. ok (p, read_u64_be (take 8 rest)))
  decrypt_raw-token rest key long sized =
      let ts_size : length (take 8 rest) ≡ 8 = omega (arith, length-take 8 rest) in
      let n_size : length (take 24 (drop 8 rest)) ≡ 24 =
        omega (arith, length-take 24 (drop 8 rest), length-drop 8 rest) in
      let c_size : 16 ≤ length (drop 32 rest) = omega (arith, length-drop 32 rest) in
      ap (λ (raw : Bytes). decrypt_raw box raw key) (sym (layout-parts rest long))
      ∙ decrypt_raw-layout box (take 8 rest) (take 24 (drop 8 rest)) (drop 32 rest) key ts_size
          n_size c_size sized

  -- The specification of the answer to the bytes of a token.
  unfoldable pub answer : Environment → Option ℤ → Base byte_type → Bytes → Outcome Bytes
  unfolding aged
  answer env ttl key [] = throw logic_error
  answer env ttl key (version ∷ rest) =
      if is_token (version ∷ rest)
      then elim (box.crypto_secretbox_open_easy (drop 32 rest) (take 24 (drop 8 rest)) key.vec) [
        | none ↦ throw invalid_signature
        | some p ↦ aged env ttl (read_u64_be (take 8 rest)) p
      ]
      else throw logic_error

  -- The body of `decrypt` behind the decoding.
  checked : Environment → Option ℤ → Base byte_type → Bytes → Outcome Bytes
  checked env ttl key raw = do
    (plaintext, ts) ← decrypt_raw box raw key
    check_ttl env ts ttl
    ok plaintext

  checked-token :
      (env : Environment) (ttl : Option ℤ) (key : Base byte_type) (rest : Bytes)
      → now_secs env + 60 < u64_mod
      → size key ≡ 32
      → 48 ≤ length rest
      → checked env ttl key (1 ∷ rest)
        ≡ elim (box.crypto_secretbox_open_easy (drop 32 rest) (take 24 (drop 8 rest)) key.vec) [
          | none ↦ throw invalid_signature
          | some p ↦ aged env ttl (read_u64_be (take 8 rest)) p
        ]
  unfolding checked
  checked-token env ttl key rest clock sized long =
      let read = decrypt_raw-token rest key long sized in
      elim (Option-cases
        (box.crypto_secretbox_open_easy (drop 32 rest) (take 24 (drop 8 rest)) key.vec)) [
          | inl rejected ↦ rw (read, rejected) refl
          | inr (p, opened) ↦
              rw (read, opened) (checks-aged env ttl (read_u64_be (take 8 rest)) p clock)
        ]

  checked-answer :
      (env : Environment) (ttl : Option ℤ) (key : Base byte_type) (raw : Bytes)
      → now_secs env + 60 < u64_mod
      → size key ≡ 32
      → checked env ttl key raw ≡ answer env ttl key raw
  unfolding checked answer
  checked-answer env ttl key [] clock sized = rw (decrypt_raw-malformed [] key refl) refl
  checked-answer env ttl key (version ∷ rest) clock sized =
      elim (Bool-cases (is_token (version ∷ rest))) [
        | inl token ↦
            let (one, long) = token_parts version rest token in
            ap (λ (v : ℕ). checked env ttl key (v ∷ rest)) one
            ∙ checked-token env ttl key rest clock sized long
            ∙ sym (rw token)
        | inr other ↦ rw (other, decrypt_raw-malformed (version ∷ rest) key other) refl
      ]

module _ (box : Secretbox) (codec : Codec) where
  -- For a clock that the tolerance of a minute does not wrap, `decrypt` answers every key and every
  -- text: a logic error for a key that has not 32 bytes, an exception of the decoding as it is, a logic error
  -- for bytes that are not a token of version 1, an invalid signature where libsodium does not open the box
  -- with the key, and else the plaintext, or, if a time to live is given, a logic error for a timestamp
  -- more than 60 seconds ahead, then an expired-token error for one older than the time to live, then
  -- the plaintext.
  pub decrypt_decided :
      (env : Environment) (token : Bytes) (key : Base byte_type) (ttl : Option ℤ)
      → now_secs env + 60 < u64_mod
      → decrypt box codec env token key ttl ≡ (
          if size key == 32
          then (Base64.decode codec token original >>= answer box env ttl key)
          else throw logic_error)
  unfolding decrypt validate_key checked
  decrypt_decided env token key ttl clock = elim (Bool-cases (size key == 32)) [
    | inl sized ↦ rw sized (
        ap (λ (next : Bytes → Outcome Bytes). Base64.decode codec token original >>= next)
          (fun_ext λ raw. checked-answer box env ttl key raw clock ((==_iff _ _).0 sized)))
    | inr wrong ↦ rw wrong refl
  ]
