-- ===== src/Types/Nonce/Fresh.antt =====
-- types/nonce.hpp: the nonce that the boxes make for each message.
use sylvite.Common.{ℕ, ◌<◌, ◌≡◌, lt→ltb}
use sylvite.Sodium.Environment.{Environment}
use sylvite.Internal.Base.Buffers.{size-of_size}
use sylvite.Types.Nonce.{random_generate, of_length}

pub buffer-random_generate :
    (env : Environment) (n : ℕ)
    → 0 < n
    → (random_generate env (of_length n)).buffer.vec ≡ env.randombytes_buf n
unfolding random_generate of_length
buffer-random_generate env n h = rw (size-of_size n, lt→ltb 0 n h)
