-- ===== src/Types/CipherText.antt =====
-- types/ciphertext.hpp: the class CipherText, a byte buffer.
use sylvite.Common.{ℕ, [], Bytes}
use sylvite.Internal.Base.{Base, byte_type, of_size, of_span}

-- CipherText()
unfoldable pub new : Base byte_type
new = record { vec = [] }

-- CipherText(size)
unfoldable pub of_length : ℕ → Base byte_type
of_length n = of_size byte_type n

-- CipherText(span)
unfoldable pub of_view : Bytes → Base byte_type
of_view view = of_span byte_type view
