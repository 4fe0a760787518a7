-- ===== src/Types/Key.antt =====
-- types/key.hpp: the class Key, a byte buffer with the secure allocator.
pub mod Startup
use sylvite.Common.{ℕ, Bytes}
use sylvite.Sodium.Environment.{Environment}
use sylvite.Internal.Base.{Base, byte_type, size, of_size}

-- Key(size)
unfoldable pub new : ℕ → Base byte_type
new n = of_size byte_type n

-- Key(vector&&)
unfoldable pub from_vector : Bytes → Base byte_type
from_vector v = record { vec = v }

unfoldable pub random_generate : Environment → Base byte_type → Base byte_type
random_generate env key = record { vec = env.randombytes_buf (size key) }
