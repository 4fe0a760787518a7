-- ===== src/Internal/Base/Buffers.antt =====
-- internal/base.hpp with a byte type: there is no sentinel, so the size is the vector's.
use sylvite.Common.{
  Outcome, ok, throw, undefined, [], Bytes, ℕ, ◌+◌, ◌≡◌, ap, zeros, length, length-replicate, arith,
}
use sylvite.Internal.Base.{Base, byte_type, size, of_size}

pub size-bytes : (b : Base byte_type) → size b ≡ length b.vec
unfolding size
size-bytes b = ground arith

pub size-of_size : (n : ℕ) → size (of_size byte_type n) ≡ n
unfolding size of_size
size-of_size n = ground (arith, length-replicate {A = ℕ} (n + 0) 0)

pub vec-of_size : (n : ℕ) → (of_size byte_type n).vec ≡ zeros n
unfolding of_size
vec-of_size n = ap zeros (omega arith)

-- The bytes of the buffer that a call returns.
abbrev pub contents : Outcome (Base byte_type) → Bytes
contents (ok k) = k.vec
contents (throw e) = []
contents undefined = []
