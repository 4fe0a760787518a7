-- ===== src/Types/PublicKey.antt =====
-- types/publickey.hpp: the class PublicKey, a byte buffer with the secure allocator.
use sylvite.Common.{ℕ, Bytes, resized}
use sylvite.Internal.Base.{Base, byte_type, of_size, of_span}

-- PublicKey()
unfoldable pub new : Base byte_type
new = of_size byte_type 32

-- The constructors from a span, whose type fixes the size.
unfoldable pub of_view : Bytes → Base byte_type
of_view view = of_span byte_type view

-- PublicKey(size)
unfoldable pub of_length : ℕ → Base byte_type
of_length n = of_size byte_type n

unfoldable pub resize : ℕ → Base byte_type → Base byte_type
resize n key = record { vec = resized n key.vec }
