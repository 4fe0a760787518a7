-- ===== src/Symmetric/NatronMultiKey/Decided.antt =====
-- symmetric/natron.hpp: what a NatronMultiKey answers to every token.
use sylvite.Common.{
  ℕ, ◌≤◌, ◌≡◌, refl, sym, ap, ◌∙◌, List, [], ◌∷◌, All, Bytes, length, take, drop, true, ◌==◌,
  ==_iff, if◌then◌else◌, Option, Option-cases, none, some, Outcome, ok, throw, ◌>>◌, ◌>>=◌,
  Bool-cases, inl, inr, invalid_signature, logic_error, >>=-eq-ok,
}
use mathlib.Core.Path.{fun_ext}
use sylvite.Common.Int.{ℤ}
use sylvite.Sodium.Environment.{Environment}
use sylvite.Sodium.Codec.{Codec}
use sylvite.Sodium.Secretbox.{Secretbox}
use sylvite.Utils.Variant.{original}
use sylvite.Utils.Base64
use sylvite.Internal.Base.{Base, byte_type, size}
use sylvite.Symmetric.Natron.{read_u64_be}
use sylvite.Symmetric.Natron.Decided.{
  is_token, token_parts, decrypt_raw-malformed, decrypt_raw-token,
}
use sylvite.Symmetric.NatronMultiKey.{
  NatronMultiKey, new, check_sizes, check_age, attempt, try_keys, decrypt,
}
use sylvite.Symmetric.NatronMultiKey.Search.{catch_invalid-check_age}

module _ (box : Secretbox) where
  -- The specification of the search, for the bytes behind the version: the plaintext under the first key
  -- that libsodium opens the box with.
  unfoldable pub first_opening : Bytes → List (Base byte_type) → Option Bytes
  first_opening rest [] = none
  first_opening rest (key ∷ keys) =
      elim (box.crypto_secretbox_open_easy (drop 32 rest) (take 24 (drop 8 rest)) key.vec) [
        | none ↦ first_opening rest keys
        | some p ↦ some p
      ]

  -- The specification of the answer to the bytes of a token.
  unfoldable pub answer : Environment → Option ℤ → List (Base byte_type) → Bytes → Outcome Bytes
  unfolding first_opening
  answer env ttl keys [] = throw logic_error
  answer env ttl keys (version ∷ rest) =
      if is_token (version ∷ rest)
      then elim (first_opening rest keys) [
        | none ↦ throw invalid_signature
        | some p ↦ check_age env (read_u64_be (take 8 rest)) ttl >> ok p
      ]
      else throw logic_error

  try_keys-first_opening :
      (env : Environment) (ttl : Option ℤ) (rest : Bytes) (keys : List (Base byte_type))
      → 48 ≤ length rest
      → All (λ key. size key ≡ 32) keys
      → try_keys box env (1 ∷ rest) ttl keys ≡ elim (first_opening rest keys) [
        | none ↦ throw invalid_signature
        | some p ↦ check_age env (read_u64_be (take 8 rest)) ttl >> ok p
      ]
  unfolding try_keys first_opening attempt
  try_keys-first_opening env ttl rest [] long sized = refl
  try_keys-first_opening env ttl rest (key ∷ keys) long sized =
      let read = decrypt_raw-token box rest key long sized.0 in
      elim (Option-cases
        (box.crypto_secretbox_open_easy (drop 32 rest) (take 24 (drop 8 rest)) key.vec)) [
          | inl rejected ↦
              rw (read, rejected) (try_keys-first_opening env ttl rest keys long sized.1)
          | inr (p, opened) ↦
              rw (read, opened) (catch_invalid-check_age env (read_u64_be (take 8 rest)) ttl p _)
        ]

  try_keys-token :
      (env : Environment) (ttl : Option ℤ) (version : ℕ) (rest : Bytes)
      (keys : List (Base byte_type))
      → is_token (version ∷ rest) ≡ true
      → All (λ k. size k ≡ 32) keys
      → try_keys box env (version ∷ rest) ttl keys ≡ answer env ttl keys (version ∷ rest)
  unfolding answer
  try_keys-token env ttl version rest keys token sized =
      let (one, long) = token_parts version rest token in
      ap (λ (v : ℕ). try_keys box env (v ∷ rest) ttl keys) one
      ∙ try_keys-first_opening env ttl rest keys long sized
      ∙ sym (rw token)

  try_keys-answer :
      (env : Environment) (ttl : Option ℤ) (key : Base byte_type) (keys : List (Base byte_type))
      (raw : Bytes)
      → All (λ k. size k ≡ 32) (key ∷ keys)
      → try_keys box env raw ttl (key ∷ keys) ≡ answer env ttl (key ∷ keys) raw
  unfolding try_keys answer attempt
  try_keys-answer env ttl key keys [] sized = rw (decrypt_raw-malformed box [] key refl)
  try_keys-answer env ttl key keys (version ∷ rest) sized =
      elim (Bool-cases (is_token (version ∷ rest))) [
        | inl token ↦ try_keys-token env ttl version rest (key ∷ keys) token sized
        | inr other ↦ rw (other, decrypt_raw-malformed box (version ∷ rest) key other)
      ]

-- The constructor lets only lists through whose keys all have 32 bytes.
check_sizes-All :
    (keys : List (Base byte_type)) → check_sizes keys ≡ ok tt → All (λ key. size key ≡ 32) keys
unfolding check_sizes
check_sizes-All [] e = tt
check_sizes-All (key ∷ keys) e = elim (Bool-cases (size key == 32)) [
  | inl sized ↦ ((==_iff _ _).0 sized, check_sizes-All keys (rw sized at e))
  | inr wrong ↦ cc (rw wrong at e)
]

new-keys :
    (key : Base byte_type) (keys : List (Base byte_type)) (multi : NatronMultiKey)
    → new (key ∷ keys) ≡ ok multi
    → All (λ k. size k ≡ 32) (key ∷ keys) × (multi ≡ record { keys = key ∷ keys })
unfolding new
new-keys key keys multi e =
    let (u, checked, kept) = >>=-eq-ok (check_sizes (key ∷ keys)) _ e in
    (check_sizes-All (key ∷ keys) checked, cc)

module _ (box : Secretbox) (codec : Codec) where
  -- For an accepted list of keys, `decrypt` answers every text: an exception of the decoding as it is, a
  -- logic error for bytes that are not a token of version 1, an invalid signature where libsodium opens the
  -- box with none of the keys, and else the plaintext under the first key that opens it, subject to the
  -- check of the token's age.
  pub decrypt-new :
      (env : Environment) (key : Base byte_type) (keys : List (Base byte_type))
      (multi : NatronMultiKey) (token : Bytes) (ttl : Option ℤ)
      → new (key ∷ keys) ≡ ok multi
      → decrypt box codec env multi token ttl
        ≡ (Base64.decode codec token original >>= answer box env ttl (key ∷ keys))
  unfolding decrypt
  decrypt-new env key keys multi token ttl made =
      let (sized, kept) = new-keys key keys multi made in
      rw kept (
        ap (λ (next : Bytes → Outcome Bytes). Base64.decode codec token original >>= next)
          (fun_ext λ raw. try_keys-answer box env ttl key keys raw sized))
