-- ===== src/Exceptions/Handled.antt =====
-- exceptions/exceptions.hpp: what reaches a handler of sodium_exception.
use sylvite.Common.{
  ℕ, ◌+◌, ◌<◌, ◌≡◌, refl, Bool, true, false, List, [], ◌∷◌, Bytes, take, drop, ◌==◌, ltb,
  if◌then◌else◌, Option, none, some, Outcome, ok, throw, undefined, ◌>>=◌, ◌>>◌, or_throw,
  Exception, index_error, logic_error, invalid_signature, decodification_error, expired_token_error,
  Bool-cases, inl, inr, throw_if,
}
use sylvite.Common.Int.{ℤ, to_u64, u64_mod}
use sylvite.Sodium.Environment.{Environment}
use sylvite.Sodium.Codec.{Codec}
use sylvite.Sodium.Secretbox.{Secretbox}
use sylvite.Utils.Variant.{original}
use sylvite.Utils.Base64
use sylvite.Internal.Base.{Base, byte_type, size}
use sylvite.Symmetric.Natron
use sylvite.Symmetric.Natron.{now_secs, read_u64_be}
use sylvite.Symmetric.Natron.Decided as Single
use sylvite.Symmetric.Natron.Decided.{is_token, aged, decrypt_decided}
use sylvite.Symmetric.NatronMultiKey
use sylvite.Symmetric.NatronMultiKey.{NatronMultiKey, new, check_age}
use sylvite.Symmetric.NatronMultiKey.Decided as Multi
use sylvite.Symmetric.NatronMultiKey.Decided.{first_opening, decrypt-new}
use sylvite.Exceptions.{c_string, of_string, of_c_string, what, is_sodium_exception}

c_string_twice : (text : Bytes) → c_string (c_string text) ≡ c_string text
c_string_twice [] = refl
c_string_twice (c ∷ text) = elim (Bool-cases (c == 0)) [
  | inl stop ↦ rw stop refl
  | inr more ↦ rw (more, more, c_string_twice text) refl
]

-- Whatever the class and whichever constructor, a handler reads the message up to its first zero byte.
pub what-of_string :
    (e : Exception) (text : Bytes)
    → (what (of_string e text) ≡ c_string text) × (what (of_c_string e text) ≡ c_string text)
unfolding what of_string of_c_string
what-of_string index_error text = (c_string_twice text, c_string_twice text)
what-of_string logic_error text = (refl, c_string_twice text)
what-of_string _ text = (refl, c_string_twice text)

-- A call that returns or throws what `catch (const sodium_exception&)` handles.
module _ {ℓ} {A : Type ℓ} where
  abbrev pub Handled : Outcome A → Type 0
  Handled (ok a) = Unit {0}
  Handled (throw e) = is_sodium_exception e ≡ true
  Handled undefined = ⊥

>>=-Handled :
    {A B : Type 0} (o : Outcome A) (next : A → Outcome B)
    → Handled o
    → ((a : A) → Handled (next a))
    → Handled (o >>= next)
>>=-Handled (ok a) next h k = k a
>>=-Handled (throw e) next h k = h
>>=-Handled undefined next h k = h

or_throw-Handled :
    {A : Type 0} (o : Option A) (e : Exception)
    → is_sodium_exception e ≡ true
    → Handled (or_throw o e)
or_throw-Handled none e h = h
or_throw-Handled (some a) e h = tt

throw_if-Handled :
    (test : Bool) (e : Exception) → is_sodium_exception e ≡ true → Handled (throw_if test e)
throw_if-Handled true e h = h
throw_if-Handled false e h = tt

if-Handled :
    {A : Type 0} (test : Bool) (a b : Outcome A)
    → Handled a
    → Handled b
    → Handled (if test then a else b)
if-Handled true a b h k = h
if-Handled false a b h k = k

decode-Handled : (codec : Codec) (token : Bytes) → Handled (Base64.decode codec token original)
unfolding Base64.decode is_sodium_exception
decode-Handled codec token = or_throw-Handled _ decodification_error refl

aged-Handled :
    (env : Environment) (ttl : Option ℤ) (ts : ℕ) (p : Bytes) → Handled (aged env ttl ts p)
unfolding aged is_sodium_exception
aged-Handled env none ts p = tt
aged-Handled env (some ttl) ts p =
    if-Handled (ltb (now_secs env + 60) ts) (throw logic_error) _ refl
      (if-Handled (ltb (ts + to_u64 ttl) (now_secs env)) (throw expired_token_error) (ok p) refl tt)

check_age-Handled :
    (env : Environment) (ts : ℕ) (ttl : Option ℤ) (p : Bytes)
    → Handled (check_age env ts ttl >> ok p)
unfolding check_age is_sodium_exception
check_age-Handled env ts none p = tt
check_age-Handled env ts (some ttl) p =
    >>=-Handled (throw_if _ expired_token_error) (λ done. ok p)
      (throw_if-Handled _ expired_token_error refl) (λ done. tt)

module _ (box : Secretbox) where
  opened-Handled :
      (env : Environment) (ttl : Option ℤ) (ts : ℕ) (opened : Option Bytes)
      → Handled (elim opened as (λ o. Outcome Bytes) [
        | none ↦ throw invalid_signature
        | some p ↦ aged env ttl ts p
      ])
  unfolding is_sodium_exception
  opened-Handled env ttl ts none = refl
  opened-Handled env ttl ts (some p) = aged-Handled env ttl ts p

  answer-Handled :
      (env : Environment) (ttl : Option ℤ) (key : Base byte_type) (raw : Bytes)
      → Handled (Single.answer box env ttl key raw)
  unfolding Single.answer is_sodium_exception
  answer-Handled env ttl key [] = refl
  answer-Handled env ttl key (version ∷ rest) =
      if-Handled (is_token (version ∷ rest)) _ (throw logic_error)
        (opened-Handled env ttl (read_u64_be (take 8 rest))
          (box.crypto_secretbox_open_easy (drop 32 rest) (take 24 (drop 8 rest)) key.vec))
        refl

  found-Handled :
      (env : Environment) (ttl : Option ℤ) (ts : ℕ) (found : Option Bytes)
      → Handled (elim found as (λ o. Outcome Bytes) [
        | none ↦ throw invalid_signature
        | some p ↦ check_age env ts ttl >> ok p
      ])
  unfolding is_sodium_exception
  found-Handled env ttl ts none = refl
  found-Handled env ttl ts (some p) = check_age-Handled env ts ttl p

  multi_answer-Handled :
      (env : Environment) (ttl : Option ℤ) (keys : List (Base byte_type)) (raw : Bytes)
      → Handled (Multi.answer box env ttl keys raw)
  unfolding Multi.answer is_sodium_exception
  multi_answer-Handled env ttl keys [] = refl
  multi_answer-Handled env ttl keys (version ∷ rest) =
      if-Handled (is_token (version ∷ rest)) _ (throw logic_error)
        (found-Handled env ttl (read_u64_be (take 8 rest)) (first_opening box rest keys)) refl

module _ (box : Secretbox) (codec : Codec) where
  natron-Handled :
      (env : Environment) (token : Bytes) (key : Base byte_type) (ttl : Option ℤ)
      → now_secs env + 60 < u64_mod
      → Handled (Natron.decrypt box codec env token key ttl)
  unfolding is_sodium_exception
  natron-Handled env token key ttl clock = rw (decrypt_decided box codec env token key ttl clock) (
      if-Handled (size key == 32) _ (throw logic_error)
        (>>=-Handled (Base64.decode codec token original) (Single.answer box env ttl key)
          (decode-Handled codec token) (answer-Handled box env ttl key))
        refl)

  -- Whatever libsodium answers, whatever the key, the list of keys that was accepted, the text and the
  -- time to live, for a clock that the tolerance does not wrap: `decrypt` of Natron and of NatronMultiKey
  -- return or throw an exception of a class derived from sodium_exception, and read nothing outside a buffer.
  pub decrypt-Handled :
      (env : Environment) (token : Bytes) (key first : Base byte_type)
      (keys : List (Base byte_type)) (multi : NatronMultiKey) (ttl : Option ℤ)
      → now_secs env + 60 < u64_mod
      → new (first ∷ keys) ≡ ok multi
      → Handled (Natron.decrypt box codec env token key ttl)
        × Handled (NatronMultiKey.decrypt box codec env multi token ttl)
  decrypt-Handled env token key first keys multi ttl clock made = (
    natron-Handled env token key ttl clock,
    rw (decrypt-new box codec env first keys multi token ttl made) (
        >>=-Handled (Base64.decode codec token original) (Multi.answer box env ttl (first ∷ keys))
          (decode-Handled codec token) (multi_answer-Handled box env ttl (first ∷ keys))),
  )
