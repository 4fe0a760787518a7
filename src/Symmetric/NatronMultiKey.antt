-- ===== src/Symmetric/NatronMultiKey.antt =====
-- symmetric/natron.hpp: the class NatronMultiKey, which decrypts with the first key that fits.
pub mod Search
pub mod Decided
pub mod Rotation
pub mod Order
pub mod Member
pub mod Succession
use sylvite.Common.{
  ℕ, ◌+◌, Bool, not, List, [], ◌∷◌, Bytes, length, ltb, ◌==◌, Option, none, some, Outcome, ok,
  throw, undefined, ◌>>=◌, ◌>>◌, throw_if, Exception, init_error, logic_error, index_error,
  empty_string_error, decodification_error, derivation_error, out_of_range_error, runtime_error,
  invalid_signature, expired_token_error, std_runtime_error, std_invalid_argument, std_bad_alloc,
  std_bad_array_new_length,
}
use sylvite.Common.Int.{ℤ, to_u64}
use sylvite.Sodium.Environment.{Environment}
use sylvite.Sodium.Codec.{Codec}
use sylvite.Sodium.Secretbox.{Secretbox}
use sylvite.Utils.Variant.{original}
use sylvite.Utils.Base64
use sylvite.Internal.Base.{Base, byte_type, size}
use sylvite.Symmetric.Natron.{key_size, now_secs, age_secs, decrypt_raw}
use sylvite.Symmetric.Natron

-- The references to the keys, in order of preference; the keys outlive the object.
pub record NatronMultiKey : Type 0 where
  pub keys : List (Base byte_type)

pub check_sizes : List (Base byte_type) → Outcome (Unit {0})
check_sizes [] = ok tt
check_sizes (key ∷ rest) = throw_if (not (size key == key_size)) logic_error >> check_sizes rest

-- The constructor.
unfoldable pub new : List (Base byte_type) → Outcome NatronMultiKey
unfolding check_sizes
new [] = throw logic_error
new (key ∷ rest) = do check_sizes (key ∷ rest); ok (record { keys = key ∷ rest })

-- `catch (const SodiumInvalidSignature&) { continue; }`
abbrev pub catch_invalid {ℓ} : {A : Type ℓ} → Outcome A → Outcome A → Outcome A
catch_invalid (ok a) next = ok a
catch_invalid (throw invalid_signature) next = next
catch_invalid (throw e) next = throw e
catch_invalid undefined next = undefined

-- The time to live alone: a timestamp in the future has age 0.
unfoldable pub check_age : Environment → ℕ → Option ℤ → Outcome (Unit {0})
unfolding age_secs
check_age env ts none = ok tt
check_age env ts (some ttl) =
    throw_if (ltb (to_u64 ttl) (age_secs (now_secs env) ts)) expired_token_error

module _ (box : Secretbox) where
  -- The body of the `try` for one key.
  unfoldable pub attempt : Environment → Bytes → Option ℤ → Base byte_type → Outcome Bytes
  unfolding check_age
  attempt env raw ttl key = do
    (plaintext, ts) ← decrypt_raw box raw key
    check_age env ts ttl
    ok plaintext

  -- The loop over the keys.
  unfoldable pub try_keys : Environment → Bytes → Option ℤ → List (Base byte_type) → Outcome Bytes
  unfolding attempt
  try_keys env raw ttl [] = throw invalid_signature
  try_keys env raw ttl (key ∷ rest) =
      catch_invalid (attempt env raw ttl key) (try_keys env raw ttl rest)

module _ (box : Secretbox) (codec : Codec) where
  -- `keys_.front()`, undefined on an empty list, which the constructor rules out.
  unfoldable pub encrypt : Environment → NatronMultiKey → Bytes → Outcome Bytes
  encrypt env multi plaintext = elim multi.keys [
    | [] ↦ undefined
    | key ∷ rest ↦ Natron.encrypt box codec env plaintext key
  ]

  unfoldable pub decrypt : Environment → NatronMultiKey → Bytes → Option ℤ → Outcome Bytes
  unfolding try_keys
  decrypt env multi token ttl = do
    raw ← Base64.decode codec token original
    try_keys box env raw ttl multi.keys

  -- The clock and the random source are read once by each half.
  unfoldable pub rotate :
      Environment → Environment → NatronMultiKey → Bytes → Option ℤ → Outcome Bytes
  unfolding decrypt encrypt
  rotate env later multi token ttl = do
    plaintext ← decrypt env multi token ttl
    encrypt later multi plaintext

unfoldable pub key_count : NatronMultiKey → ℕ
key_count multi = length multi.keys
