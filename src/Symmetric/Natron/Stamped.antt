-- ===== src/Symmetric/Natron/Stamped.antt =====
-- symmetric/natron.hpp: the timestamp that is read off a token without a key.
use sylvite.Common.{
  ℕ, suc, ◌+◌, ◌*◌, ◌^◌, ◌<◌, ◌≤◌, ◌≡◌, refl, sym, ap, ◌∙◌, false, [], ◌∷◌, Bytes, length, take,
  drop, ltb, some, ok, arith, read_at, length-take, take-append-drop, read_at-append,
}
use native.Mathlib.Nat.{mul-le-mul_right}
use sylvite.Common.Int.{ℤ, pos, to_i64, u64_mod}
use sylvite.Sodium.Environment.{Environment}
use sylvite.Sodium.Codec.{Codec}
use sylvite.Sodium.Secretbox.{Secretbox}
use sylvite.Utils.Variant.{original}
use sylvite.Utils.Base64
use sylvite.Internal.Base.{Base, byte_type}
use sylvite.Symmetric.Natron.{decrypt, time_point, token_timestamp, now_secs, read_u64_be}
use sylvite.Symmetric.Natron.Timestamp.{time_point-to_i64}
use sylvite.Symmetric.Natron.Lifetime.{IsTimely}
use sylvite.Symmetric.Natron.Authentic.{decrypt-Opens}

-- A token of at least 49 bytes and version 1 shows its timestamp, whatever the rest is.
token_timestamp-token :
    (ticks : ℕ) (codec : Codec) (token rest : Bytes)
    → Base64.decode codec token original ≡ ok (1 ∷ rest)
    → 48 ≤ length rest
    → token_timestamp ticks codec token ≡ time_point ticks (to_i64 (read_u64_be (take 8 rest)))
unfolding token_timestamp
token_timestamp-token ticks codec token rest decoded long =
    let enough : ltb (suc (length rest)) 49 ≡ false = ground arith in
    let stamp : read_at 1 8 (1 ∷ rest) ≡ ok (take 8 rest) =
      ap (λ (r : Bytes). read_at 1 8 (1 ∷ r)) (sym (take-append-drop 8 rest))
      ∙ read_at-append 1 8 (1 ∷ []) (take 8 rest) (drop 8 rest) refl
          (omega (arith, length-take 8 rest)) in
    rw (decoded, enough, stamp) refl

-- A call of `decrypt` with a time to live that returns a plaintext has checked the timestamp that
-- `token_timestamp` reads off the same token without the key: the timestamp is timely, and that call
-- returns the time point of so many seconds after the epoch, if the clock counts a minute more than the present
-- time in its signed 64-bit number of ticks (and the clock's tolerance does not wrap).
pub decrypt-token_timestamp :
    (box : Secretbox) (codec : Codec) (env : Environment) (token : Bytes) (key : Base byte_type)
    (ttl : ℤ) (plaintext : Bytes) (ticks : ℕ)
    → now_secs env + 60 < u64_mod
    → 0 < ticks
    → (now_secs env + 60) * ticks < 2 ^ 63
    → decrypt box codec env token key (some ttl) ≡ ok plaintext
    → (ts : ℕ) × (token_timestamp ticks codec token ≡ ok (pos (ts * ticks)))
      × IsTimely env ts (some ttl)
decrypt-token_timestamp box codec env token key ttl plaintext ticks clock some_ticks fits e =
    let (_, raw, ts, decoded, opens, timely) =
      decrypt-Opens box codec env token key (some ttl) plaintext clock e in
    let early : ts * ticks ≤ (now_secs env + 60) * ticks = mul-le-mul_right ticks timely.0 in
    (
      ts,
      token_timestamp-token ticks codec token opens.rest (decoded ∙ ap ok opens.versioned)
            opens.long
          ∙ ap (λ (s : ℕ). time_point ticks (to_i64 s)) opens.stamped
          ∙ time_point-to_i64 ticks ts some_ticks (omega arith),
      timely,
    )
