-- ===== src/Symmetric/Natron/Timestamp.antt =====
-- symmetric/natron.hpp: the big-endian timestamp is read back as it was written, and becomes a time point.
use sylvite.Common.{ℕ, ◌*◌, ◌^◌, ◌<◌, ◌≤◌, ◌≡◌, refl, true, length, ltb, ok, arith}
use native.Mathlib.Nat.{mul-le-mul_left}
use sylvite.Common.Int.{pos, to_i64, u64_mod}
use sylvite.Symmetric.Natron.{write_u64_be, read_u64_be, time_point}

-- Every 64-bit value is written to eight bytes that read back as the value.
pub read_u64_be-write_u64_be :
    (val : ℕ)
    → val < u64_mod
    → (length (write_u64_be val) ≡ 8) × (read_u64_be (write_u64_be val) ≡ val)
unfolding read_u64_be write_u64_be
read_u64_be-write_u64_be val h = (refl, omega arith)

-- A count of seconds that the clock's ticks do not overflow becomes the time point that many seconds after
-- the epoch.
pub time_point-to_i64 :
    (ticks ts : ℕ)
    → 0 < ticks
    → ts * ticks < 2 ^ 63
    → time_point ticks (to_i64 ts) ≡ ok (pos (ts * ticks))
unfolding time_point
time_point-to_i64 ticks ts some_ticks fits =
    let least : ts * 1 ≤ ts * ticks = mul-le-mul_left ts some_ticks in
    let small : ltb ts (2 ^ 63) ≡ true = ground arith in
    let whole : ltb (ts * ticks) (2 ^ 63) ≡ true = ground arith in rw (small, whole) refl
