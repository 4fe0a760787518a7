-- ===== src/Symmetric/NatronMultiKey/Order.antt =====
-- symmetric/natron.hpp: when the order of a NatronMultiKey's keys does not matter.
use sylvite.Common.{
  ◌≡◌, ◌↔◌, refl, sym, ◌∙◌, List, [], ◌∷◌, Bytes, take, drop, Option, Option-cases, none, some,
  Outcome, ok, throw, undefined, ◌>>=◌, ◌>>◌, Bool-cases, inl, inr,
}
use mathlib.Core.List.{Memᴰ}
use mathlib.Core.List.Memᴰ.{head, tail}
use sylvite.Common.Int.{ℤ}
use sylvite.Sodium.Environment.{Environment}
use sylvite.Sodium.Codec.{Codec}
use sylvite.Sodium.Secretbox.{Secretbox}
use sylvite.Utils.Variant.{original}
use sylvite.Utils.Base64
use sylvite.Internal.Base.{Base, byte_type}
use sylvite.Symmetric.Natron.{read_u64_be}
use sylvite.Symmetric.Natron.Decided.{is_token}
use sylvite.Symmetric.NatronMultiKey.{NatronMultiKey, new, check_age, decrypt}
use sylvite.Symmetric.NatronMultiKey.Decided.{first_opening, answer, decrypt-new}

-- Whether a call returns, and what it throws if not.
abbrev pub verdict : Outcome Bytes → Outcome (Unit {0})
verdict (ok p) = ok tt
verdict (throw e) = throw e
verdict undefined = undefined

-- What is behind the check of the age does not change whether it passes.
>>=-checked :
    (checked : Outcome (Unit {0})) (p p' : Bytes)
    → verdict (checked >> ok p) ≡ verdict (checked >> ok p')
>>=-checked (ok u) p p' = refl
>>=-checked (throw e) p p' = refl
>>=-checked undefined p p' = refl

>>=-same :
    (decoded : Outcome Bytes) (next next' : Bytes → Outcome Bytes)
    → ((raw : Bytes) → verdict (next raw) ≡ verdict (next' raw))
    → verdict (decoded >>= next) ≡ verdict (decoded >>= next')
>>=-same (ok raw) next next' same = same raw
>>=-same (throw e) next next' same = refl
>>=-same undefined next next' same = refl

module _ (box : Secretbox) where
  abbrev pub opening : Bytes → Base byte_type → Option Bytes
  opening rest key = box.crypto_secretbox_open_easy (drop 32 rest) (take 24 (drop 8 rest)) key.vec

  first_rejects :
      (rest : Bytes) (keys : List (Base byte_type)) (k : Base byte_type)
      → opening rest k ≡ none
      → first_opening box rest (k ∷ keys) ≡ first_opening box rest keys
  unfolding first_opening
  first_rejects rest keys k rejected = rw (rejected, first_opening) refl

  first_opens :
      (rest : Bytes) (keys : List (Base byte_type)) (k : Base byte_type) (p : Bytes)
      → opening rest k ≡ some p
      → first_opening box rest (k ∷ keys) ≡ some p
  unfolding first_opening
  first_opens rest keys k p opened = rw (opened, first_opening) refl

  pub first_opening-none :
      (rest : Bytes) (keys : List (Base byte_type)) (key : Base byte_type)
      → Memᴰ key keys
      → first_opening box rest keys ≡ none
      → opening rest key ≡ none
  first_opening-none rest [] key there e = elim there [ ]
  first_opening-none rest (k ∷ keys) key there e = elim (Option-cases (opening rest k)) [
    | inl rejected ↦ elim there [
      | head same ↦ rw same rejected
      | tail later ↦
          first_opening-none rest keys key later (sym (first_rejects rest keys k rejected) ∙ e)
    ]
    | inr (p, opened) ↦ cc (first_opens rest keys k p opened)
  ]

  pub first_opening-some :
      (rest : Bytes) (keys : List (Base byte_type)) (p : Bytes)
      → first_opening box rest keys ≡ some p
      → (key : Base byte_type) × Memᴰ key keys × (opening rest key ≡ some p)
  unfolding first_opening
  first_opening-some rest [] p e = cc
  first_opening-some rest (k ∷ keys) p e = elim (Option-cases (opening rest k)) [
    | inl rejected ↦
        let (key, there, opened) =
          first_opening-some rest keys p (sym (first_rejects rest keys k rejected) ∙ e) in
        (key, tail there, opened)
    | inr (q, opened) ↦ (k, head refl, opened ∙ sym (first_opens rest keys k q opened) ∙ e)
  ]

  -- Lists with the same keys open the same boxes.
  first_opening-same :
      (rest : Bytes) (keys keys' : List (Base byte_type))
      → ((k : Base byte_type) → Memᴰ k keys → Memᴰ k keys')
      → first_opening box rest keys' ≡ none
      → first_opening box rest keys ≡ none
  first_opening-same rest keys keys' among shut =
      elim (Option-cases (first_opening box rest keys)) [
        | inl none_opens ↦ none_opens
        | inr (p, found) ↦
            let (key, there, opened) = first_opening-some rest keys p found in
            let rejected = first_opening-none rest keys' key (among key there) shut in cc
      ]

  answer-same :
      (env : Environment) (ttl : Option ℤ) (keys keys' : List (Base byte_type)) (raw : Bytes)
      → ((k : Base byte_type) → Memᴰ k keys ↔ Memᴰ k keys')
      → verdict (answer box env ttl keys raw) ≡ verdict (answer box env ttl keys' raw)
  unfolding answer
  answer-same env ttl keys keys' [] same = refl
  answer-same env ttl keys keys' (version ∷ rest) same =
      elim (Bool-cases (is_token (version ∷ rest))) [
        | inr other ↦ rw other refl
        | inl token ↦ elim (Option-cases (first_opening box rest keys)) [
          | inl shut ↦
              let shut' = first_opening-same rest keys' keys (λ k. (same k).1) shut in
              rw (token, shut, shut') refl
          | inr (p, found) ↦ elim (Option-cases (first_opening box rest keys')) [
            | inl shut' ↦
                let shut = first_opening-same rest keys keys' (λ k. (same k).0) shut' in cc
            | inr (p', found') ↦
                rw (token, found, found')
                  (>>=-checked (check_age env (read_u64_be (take 8 rest)) ttl) p p')
          ]
        ]
      ]

-- Two accepted lists with the same keys, in whatever order and however often: both decrypt the same
-- texts, and throw the same exception for every other text, whatever the time to live.
pub decrypt-same_keys :
    (box : Secretbox) (codec : Codec) (env : Environment) (key key' : Base byte_type)
    (keys keys' : List (Base byte_type)) (multi multi' : NatronMultiKey) (token : Bytes)
    (ttl : Option ℤ)
    → new (key ∷ keys) ≡ ok multi
    → new (key' ∷ keys') ≡ ok multi'
    → ((k : Base byte_type) → Memᴰ k (key ∷ keys) ↔ Memᴰ k (key' ∷ keys'))
    → verdict (decrypt box codec env multi token ttl)
      ≡ verdict (decrypt box codec env multi' token ttl)
decrypt-same_keys box codec env key key' keys keys' multi multi' token ttl made made' same =
    rw
      (
        decrypt-new box codec env key keys multi token ttl made,
        decrypt-new box codec env key' keys' multi' token ttl made',
      )
      (>>=-same (Base64.decode codec token original) _ _
        (λ raw. answer-same box env ttl (key ∷ keys) (key' ∷ keys') raw same))
