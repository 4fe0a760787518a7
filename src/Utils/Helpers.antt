-- ===== src/Utils/Helpers.antt =====
-- utils/utils.hpp: the comparison and the zeroing of spans.
pub mod Compared
use sylvite.Common.{
  ℕ, not, Bytes, length, replicate, ◌==◌, Outcome, ok, ◌>>=◌, ◌>>◌, throw_if, read_at, logic_error,
  runtime_error,
}
use sylvite.Sodium.Memory.{Memory}

-- A span of elements: how many there are, and the bytes of all of them.
pub record Span : Type 0 where
  pub size : ℕ
  pub bytes : Bytes

-- The number of elements is what sodium_memcmp takes for the number of bytes.
unfoldable pub memory_compare : Memory → Span → Span → Outcome (Unit {0})
memory_compare memory a b = do
  throw_if (not (a.size == b.size)) logic_error
  x ← read_at 0 a.size a.bytes
  y ← read_at 0 a.size b.bytes
  throw_if (not (memory.sodium_memcmp x y)) runtime_error

-- The elements are bytes.
unfoldable pub memory_zero : Bytes → Bytes
memory_zero buffer = replicate (length buffer) 0
