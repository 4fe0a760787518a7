-- ===== src/Symmetric/Natron.antt =====
-- symmetric/natron.hpp: the tokens, and the class Natron with one key. The texts of the exceptions
-- are left out.
pub mod Timestamp
pub mod Token
pub mod RoundTrip
pub mod Lifetime
pub mod Restamp
pub mod Authentic
pub mod Decided
pub mod Stamped
use sylvite.Common.{
  ℕ, zero, suc, ◌+◌, ◌-◌, ◌*◌, ◌/◌, ◌%◌, ◌^◌, Bool, true, false, not, [], ◌∷◌, Bytes, length,
  get_or, ltb, leb, ◌==◌, if◌then◌else◌, Option, none, some, Outcome, ok, undefined, ◌>>=◌, ◌>>◌,
  throw_if, or_throw, read_at, write_at, zeros, logic_error, std_runtime_error, invalid_signature,
  expired_token_error,
}
use sylvite.Common.Int.{ℤ, pos, negsuc, to_u64, to_i64, u64_mod}
use sylvite.Sodium.Environment.{Environment}
use sylvite.Sodium.Codec.{Codec}
use sylvite.Sodium.Secretbox.{
  Secretbox, crypto_secretbox_noncebytes, crypto_secretbox_macbytes, crypto_secretbox_keybytes,
}
use sylvite.Utils.Variant.{original}
use sylvite.Utils.Base64
use sylvite.Internal.Base.{Base, byte_type, size, subscript}

abbrev pub natron_version : ℕ
natron_version = 1

abbrev pub version_size : ℕ
version_size = 1

abbrev pub timestamp_size : ℕ
timestamp_size = 8

abbrev pub nonce_size : ℕ
nonce_size = crypto_secretbox_noncebytes

abbrev pub mac_size : ℕ
mac_size = crypto_secretbox_macbytes

abbrev pub header_size : ℕ
header_size = version_size + timestamp_size + nonce_size

abbrev pub overhead : ℕ
overhead = header_size + mac_size

abbrev pub min_token_bytes : ℕ
min_token_bytes = overhead

abbrev pub clock_skew_tolerance_secs : ℕ
clock_skew_tolerance_secs = 60

abbrev pub key_size : ℕ
key_size = crypto_secretbox_keybytes

-- `(val >> n) & 0xFF` for each byte, the highest first.
unfoldable pub write_u64_be : ℕ → Bytes
write_u64_be val =
    val / 2 ^ 56 % 256
    ∷ val / 2 ^ 48 % 256
    ∷ val / 2 ^ 40 % 256
    ∷ val / 2 ^ 32 % 256
    ∷ val / 2 ^ 24 % 256
    ∷ val / 2 ^ 16 % 256
    ∷ val / 2 ^ 8 % 256
    ∷ val % 256
    ∷ []

-- The shifted bytes have no bit in common, so `|` adds them.
unfoldable pub read_u64_be : Bytes → ℕ
read_u64_be src =
    get_or src 0 0 * 2 ^ 56
    + get_or src 1 0 * 2 ^ 48
    + get_or src 2 0 * 2 ^ 40
    + get_or src 3 0 * 2 ^ 32
    + get_or src 4 0 * 2 ^ 24
    + get_or src 5 0 * 2 ^ 16
    + get_or src 6 0 * 2 ^ 8
    + get_or src 7 0

-- The system clock's seconds as the code casts them.
abbrev pub now_secs : Environment → ℕ
now_secs env = to_u64 env.system_clock_secs

module _ (box : Secretbox) where
  -- The token's bytes: version, timestamp, nonce, then the MAC and the ciphertext.
  unfoldable pub encrypt_raw : Environment → Bytes → Base byte_type → Outcome Bytes
  encrypt_raw env plaintext key = do
    throw_if (not (size key == crypto_secretbox_keybytes)) logic_error
    let token = zeros (overhead + length plaintext)
    token ← write_at 0 (natron_version ∷ []) token
    token ← write_at version_size (write_u64_be (now_secs env)) token
    token ← write_at (version_size + timestamp_size) (env.randombytes_buf nonce_size) token
    nonce ← read_at (version_size + timestamp_size) nonce_size token
    k ← read_at 0 crypto_secretbox_keybytes key.vec
    mac_and_ct ← or_throw (box.crypto_secretbox_easy plaintext nonce k) std_runtime_error
    write_at header_size mac_and_ct token

  -- The plaintext, with the timestamp that goes to `ts_out`.
  unfoldable pub decrypt_raw : Bytes → Base byte_type → Outcome (Bytes × ℕ)
  decrypt_raw raw_token key = do
    throw_if (ltb (length raw_token) min_token_bytes) logic_error
    version ← subscript raw_token 0
    throw_if (not (version == natron_version)) logic_error
    ts ← read_at version_size timestamp_size raw_token
    nonce ← read_at (version_size + timestamp_size) nonce_size raw_token
    mac_and_ct ← read_at header_size (length raw_token - header_size) raw_token
    k ← read_at 0 crypto_secretbox_keybytes key.vec
    plaintext ← or_throw (box.crypto_secretbox_open_easy mac_and_ct nonce k) invalid_signature
    ok (plaintext, read_u64_be ts)

-- `(now_secs >= ts) ? (now_secs - ts) : 0`
unfoldable pub age_secs : ℕ → ℕ → ℕ
age_secs now ts = if leb ts now then now - ts else 0

-- The check of a token's age: first against the future, then against the time to live.
unfoldable pub check_ttl : Environment → ℕ → Option ℤ → Outcome (Unit {0})
unfolding age_secs
check_ttl env ts none = ok tt
check_ttl env ts (some ttl) = do
  throw_if (ltb ((now_secs env + clock_skew_tolerance_secs) % u64_mod) ts) logic_error
  throw_if (ltb (to_u64 ttl) (age_secs (now_secs env) ts)) expired_token_error

-- validate_key_
unfoldable pub validate_key : Base byte_type → Outcome (Unit {0})
validate_key key = throw_if (not (size key == key_size)) logic_error

module _ (box : Secretbox) (codec : Codec) where
  -- Both overloads; the variant of `Base64::encode` and `decode` is the default one.
  unfoldable pub encrypt : Environment → Bytes → Base byte_type → Outcome Bytes
  unfolding validate_key
  encrypt env plaintext key = do
    validate_key key
    raw ← encrypt_raw box env plaintext key
    ok (Base64.encode codec raw original)

  unfoldable pub decrypt : Environment → Bytes → Base byte_type → Option ℤ → Outcome Bytes
  unfolding validate_key check_ttl
  decrypt env token key ttl = do
    validate_key key
    raw ← Base64.decode codec token original
    (plaintext, ts) ← decrypt_raw box raw key
    check_ttl env ts ttl
    ok plaintext

-- `system_clock::time_point(std::chrono::seconds(ts))`, for a clock with so many ticks a second: the count of
-- seconds is a signed 64-bit number, and the product with the ticks is one, undefined if it is too large.
unfoldable pub time_point : ℕ → ℤ → Outcome ℤ
time_point ticks (pos n) = if ltb (n * ticks) (2 ^ 63) then ok (pos (n * ticks)) else undefined
time_point ticks (negsuc n) =
    if leb (suc n * ticks) (2 ^ 63) then ok (negsuc (suc n * ticks - 1)) else undefined

-- The time point that the code returns, in ticks since the epoch.
unfoldable pub token_timestamp : ℕ → Codec → Bytes → Outcome ℤ
token_timestamp ticks codec token = do
  raw ← Base64.decode codec token original
  throw_if (ltb (length raw) min_token_bytes) logic_error
  version ← subscript raw 0
  throw_if (not (version == natron_version)) logic_error
  ts ← read_at version_size timestamp_size raw
  time_point ticks (to_i64 (read_u64_be ts))
