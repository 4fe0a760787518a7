-- ===== src/Types/Salt.antt =====
-- types/salt.hpp: the class Salt, a byte buffer.
use sylvite.Common.{ℕ, Bytes, ltb, if◌then◌else◌}
use sylvite.Sodium.Environment.{Environment}
use sylvite.Sodium.Derivation.{crypto_pwhash_argon2id_saltbytes}
use sylvite.Internal.Base.{Base, byte_type, size, of_size, of_span}

-- Salt()
unfoldable pub new : Base byte_type
new = of_size byte_type crypto_pwhash_argon2id_saltbytes

-- Salt(size)
unfoldable pub of_length : ℕ → Base byte_type
of_length n = of_size byte_type n

-- Salt(vector&&)
unfoldable pub from_vector : Bytes → Base byte_type
from_vector v = record { vec = v }

-- Salt(span)
unfoldable pub of_view : Bytes → Base byte_type
of_view view = of_span byte_type view

-- Salt(container&), which resizes and copies.
unfoldable pub from_container : Bytes → Base byte_type
from_container c = record { vec = c }

-- random_generate(n): no random bytes are asked for when n is 0.
unfoldable pub random_generate_sized : Environment → Base byte_type → ℕ → Base byte_type
random_generate_sized env salt n =
    if ltb 0 n then record { vec = env.randombytes_buf n } else of_size byte_type 0

-- random_generate()
unfoldable pub random_generate : Environment → Base byte_type → Base byte_type
random_generate env salt =
    if ltb 0 (size salt) then record { vec = env.randombytes_buf (size salt) } else salt
