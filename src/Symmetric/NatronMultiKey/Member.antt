-- ===== src/Symmetric/NatronMultiKey/Member.antt =====
-- symmetric/natron.hpp: a token of Natron under one of the keys of a NatronMultiKey.
use sylvite.Common.{
  ℕ, ◌+◌, ◌<◌, ◌≡◌, refl, sym, ap, ◌∙◌, true, false, List, [], ◌∷◌, Bytes, Option-cases, none, some,
  ok, throw, ◌>>=◌, >>=-eq-ok, ◌==◌, Bool-cases, inl, inr, invalid_signature, logic_error,
}
use mathlib.Core.List.{Memᴰ}
use sylvite.Common.Int.{u64_mod}
use sylvite.Sodium.Environment.{Environment}
use sylvite.Sodium.Codec.{Codec}
use sylvite.Sodium.Secretbox.{Secretbox}
use sylvite.Utils.Variant.{original}
use sylvite.Utils.Base64
use sylvite.Internal.Base.{Base, byte_type, size}
use sylvite.Symmetric.Natron
use sylvite.Symmetric.Natron.{now_secs, read_u64_be, check_ttl}
use sylvite.Symmetric.Natron.Decided as Single
use sylvite.Symmetric.Natron.Decided.{is_token, aged, decrypt_decided}
use sylvite.Symmetric.NatronMultiKey.{NatronMultiKey, new, check_age, decrypt}
use sylvite.Symmetric.NatronMultiKey.Decided as Multi
use sylvite.Symmetric.NatronMultiKey.Decided.{first_opening, decrypt-new}
use sylvite.Symmetric.NatronMultiKey.Order.{opening, first_opening-none, first_opening-some}

module _ (box : Secretbox) where
  first_opening-member :
      (rest : Bytes) (keys : List (Base byte_type)) (key : Base byte_type) (p : Bytes)
      → Memᴰ key keys
      → ((k : Base byte_type) (q : Bytes) → Memᴰ k keys → opening box rest k ≡ some q → q ≡ p)
      → opening box rest key ≡ some p
      → first_opening box rest keys ≡ some p
  first_opening-member rest keys key p there only opened =
      elim (Option-cases (first_opening box rest keys)) [
        | inl shut ↦ let rejected = first_opening-none box rest keys key there shut in cc
        | inr (q, found) ↦
            let (key', there', opened') = first_opening-some box rest keys q found in
            let same = only key' q there' opened' in cc
      ]

  single-opened :
      (env : Environment) (key : Base byte_type) (version : ℕ) (rest p : Bytes)
      → is_token (version ∷ rest) ≡ true
      → Single.answer box env none key (version ∷ rest) ≡ ok p
      → opening box rest key ≡ some p
  unfolding Single.answer aged
  single-opened env key version rest p token e = elim (Option-cases (opening box rest key)) [
    | inl shut ↦
        let refused : Single.answer box env none key (version ∷ rest) ≡ throw invalid_signature =
          rw (token, shut) refl in
        let both : throw invalid_signature ≡ ok p = sym refused ∙ e in cc
    | inr (q, opened) ↦
        let answered : Single.answer box env none key (version ∷ rest) ≡ ok q =
          rw (token, opened) refl in
        let both : ok q ≡ ok p = sym answered ∙ e in cc
  ]

  single-malformed :
      (env : Environment) (key : Base byte_type) (version : ℕ) (rest p : Bytes)
      → is_token (version ∷ rest) ≡ false
      → Single.answer box env none key (version ∷ rest) ≡ ok p
      → ⊥
  unfolding Single.answer
  single-malformed env key version rest p other e =
      let refused : Single.answer box env none key (version ∷ rest) ≡ throw logic_error =
        rw other refl in
      let both : throw logic_error ≡ ok p = sym refused ∙ e in cc

  multi-opened :
      (env : Environment) (keys : List (Base byte_type)) (version : ℕ) (rest p : Bytes)
      → is_token (version ∷ rest) ≡ true
      → first_opening box rest keys ≡ some p
      → Multi.answer box env none keys (version ∷ rest) ≡ ok p
  unfolding Multi.answer check_age
  multi-opened env keys version rest p token found = rw (token, found) refl

  -- What one key opens, a list with that key opens to the same, if none of its keys opens it to another
  -- plaintext.
  answer-member :
      (env env' : Environment) (keys : List (Base byte_type)) (key : Base byte_type) (raw p : Bytes)
      → Memᴰ key keys
      → ((version : ℕ) (rest : Bytes) (k : Base byte_type) (q : Bytes)
          → raw ≡ version ∷ rest
          → Memᴰ k keys
          → opening box rest k ≡ some q
          → q ≡ p)
      → Single.answer box env none key raw ≡ ok p
      → Multi.answer box env' none keys raw ≡ ok p
  unfolding Single.answer
  answer-member env env' keys key [] p there only e = cc e
  answer-member env env' keys key (version ∷ rest) p there only e =
      elim (Bool-cases (is_token (version ∷ rest))) [
        | inl token ↦
            let opened = single-opened env key version rest p token e in
            multi-opened env' keys version rest p token (
              first_opening-member rest keys key p there (λ k q. only version rest k q refl) opened)
        | inr other ↦ absurd (single-malformed env key version rest p other e)
      ]

-- Without a time to live the clock does not matter.
pub decrypt-clock :
    (box : Secretbox) (codec : Codec) (env env' : Environment) (token : Bytes)
    (key : Base byte_type)
    → Natron.decrypt box codec env token key none ≡ Natron.decrypt box codec env' token key none
unfolding Natron.decrypt check_ttl
decrypt-clock box codec env env' token key = refl

module _ (box : Secretbox) (codec : Codec) where
  -- Every one of the keys that opens the box of this token opens it to this plaintext.
  abbrev pub Reads : List (Base byte_type) → Bytes → Bytes → Type 0
  Reads keys token plaintext =
      (version : ℕ) (rest : Bytes) (k : Base byte_type) (p : Bytes)
      → Base64.decode codec token original ≡ ok (version ∷ rest)
      → Memᴰ k keys
      → opening box rest k ≡ some p
      → p ≡ plaintext

  -- A token that Natron opens with one key, an accepted list with that key opens to the same, if none of
  -- its keys opens the token's box to another plaintext.
  pub decrypt-member :
      (env env' : Environment) (token p : Bytes) (key first : Base byte_type)
      (keys : List (Base byte_type)) (multi : NatronMultiKey)
      → now_secs env + 60 < u64_mod
      → Natron.decrypt box codec env token key none ≡ ok p
      → new (first ∷ keys) ≡ ok multi
      → Memᴰ key (first ∷ keys)
      → Reads (first ∷ keys) token p
      → decrypt box codec env' multi token none ≡ ok p
  decrypt-member env env' token p key first keys multi clock e made there reads =
      elim (Bool-cases (size key == 32)) [
        | inl sized ↦
            let opened : (Base64.decode codec token original >>= Single.answer box env none key)
                ≡ ok p =
              sym (decrypt_decided box codec env token key none clock ∙ rw sized refl) ∙ e in
            let (raw, decoded, answered) =
              >>=-eq-ok (Base64.decode codec token original) (Single.answer box env none key)
                opened in
            decrypt-new box codec env' first keys multi token none made
            ∙ rw decoded (
                answer-member box env env' (first ∷ keys) key raw p there
                  (λ version rest k q same. reads version rest k q (decoded ∙ ap ok same)) answered)
        | inr wrong ↦
            let refused : Natron.decrypt box codec env token key none ≡ throw logic_error =
              decrypt_decided box codec env token key none clock ∙ rw wrong refl in
            let both : throw logic_error ≡ ok p = sym refused ∙ e in cc
      ]
