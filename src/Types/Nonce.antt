-- ===== src/Types/Nonce.antt =====
-- types/nonce.hpp and internal/noncemodify.hpp: a nonce and its `used_` flag.
pub mod Counter
pub mod Fresh
use sylvite.Common.{ℕ, Bool, true, false, not, [], Bytes, if◌then◌else◌, ltb}
use sylvite.Sodium.Environment.{Environment}
use sylvite.Sodium.Memory.{Memory}
use sylvite.Internal.Base.{Base, byte_type, size, empty, of_size, of_span}

pub data Generation : Type 0 where
  lazy eager : Generation

pub record Nonce (M : Generation) : Type 0 where
  pub buffer : Base byte_type
  pub used : Bool

-- Nonce()
unfoldable pub new : Nonce lazy
new = record { buffer = record { vec = [] }; used = false }

-- Nonce(n): `B_(n_)`, which value-initialises the bytes.
unfoldable pub of_length : ℕ → Nonce eager
of_length n = record { buffer = of_size byte_type n; used = false }

-- Nonce(span): a nonce from outside counts as used.
unfoldable pub of_view : Bytes → Nonce eager
of_view view = record { buffer = of_span byte_type view; used = true }

-- NonceModify::modify
unfoldable pub modify : {M : Generation} → Nonce M → Bool → Nonce M
modify nonce state = record nonce { used = state }

-- random_generate(n)
unfoldable pub random_generate_sized : Environment → {M : Generation} → Nonce M → ℕ → Nonce M
random_generate_sized env nonce n = record {
  buffer = record { vec = env.randombytes_buf n };
  used = false;
}

-- random_generate(), for eager nonces
unfoldable pub random_generate : Environment → Nonce eager → Nonce eager
random_generate env nonce = record {
  buffer =
      if ltb 0 (size nonce.buffer)
      then record { vec = env.randombytes_buf (size nonce.buffer) }
      else nonce.buffer;
  used = false;
}

-- increment(), for eager nonces
unfoldable pub increment : Memory → Nonce eager → Nonce eager
increment memory nonce =
    if not (empty nonce.buffer)
    then record { buffer = record { vec = memory.sodium_increment nonce.buffer.vec }; used = false }
    else nonce

-- get_state(): the generation is a template argument.
unfoldable pub get_state : {M : Generation} → Nonce M → Generation
get_state {M} nonce = M
