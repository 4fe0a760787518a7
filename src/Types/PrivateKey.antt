-- ===== src/Types/PrivateKey.antt =====
-- types/privatekey.hpp: the class PrivateKey, a byte buffer with the secure allocator.
use sylvite.Common.{
  ℕ, [], Bytes, resized, length, ◌==◌, if◌then◌else◌, Outcome, ok, throw, logic_error, ok,
}
use sylvite.Internal.Base.{Base, byte_type, of_size, of_span}

abbrev pub crypto_sign_secretkeybytes : ℕ
crypto_sign_secretkeybytes = 64

abbrev pub crypto_box_secretkeybytes : ℕ
crypto_box_secretkeybytes = 32

-- PrivateKey(size)
unfoldable pub of_length : ℕ → Base byte_type
of_length n = of_size byte_type n

-- PrivateKey()
unfoldable pub new : Base byte_type
new = record { vec = [] }

-- The constructors from a span, whose type fixes the size.
unfoldable pub of_view : Bytes → Base byte_type
of_view view = of_span byte_type view

-- PrivateKey(vector&&)
unfoldable pub from_vector : Bytes → Outcome (Base byte_type)
from_vector v =
    if length v == crypto_sign_secretkeybytes
    then ok (record { vec = v })
    else if length v == crypto_box_secretkeybytes
    then ok (record { vec = v })
    else throw logic_error

-- PrivateKey::crypto() and PrivateKey::sign()
unfoldable pub crypto : Base byte_type
unfolding of_length
crypto = of_length 32

unfoldable pub sign : Base byte_type
unfolding of_length
sign = of_length 64

unfoldable pub resize : ℕ → Base byte_type → Base byte_type
resize n key = record { vec = resized n key.vec }
