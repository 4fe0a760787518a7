-- ===== src/Sodium/Memory.antt =====
-- libsodium's comparison and increment of buffers.
use sylvite.Common.{ℕ, ◌+◌, ◌*◌, ◌%◌, ◌^◌, ◌≡◌, ◌↔◌, Bool, true, [], ◌∷◌, Bytes, length}

-- The number that a buffer holds, its first byte the lowest.
abbrev pub little_endian : Bytes → ℕ
little_endian [] = 0
little_endian (b ∷ bs) = b + 256 * little_endian bs

pub record Memory : Type 0 where
  -- `sodium_memcmp(a, b, n) == 0` for buffers of n bytes
  pub sodium_memcmp : Bytes → Bytes → Bool
  pub sodium_increment : Bytes → Bytes

-- The comparison finds equal buffers; the increment reads a buffer little-endian and wraps.
pub record MemoryLaws (m : Memory) : Type 0 where
  pub memcmp_iff : (a b : Bytes) → length a ≡ length b → (m.sodium_memcmp a b ≡ true) ↔ (a ≡ b)
  pub length-increment : (b : Bytes) → length (m.sodium_increment b) ≡ length b
  pub value-increment :
      (b : Bytes) → little_endian (m.sodium_increment b) ≡ (little_endian b + 1) % 256 ^ length b
