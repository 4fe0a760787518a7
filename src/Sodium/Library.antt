-- ===== src/Sodium/Library.antt =====
-- libsodium's state: initialisation and locked memory.
use sylvite.Common.{ℕ, Option}
use sylvite.Common.Int.{ℤ}

pub record Library : Type 1 where
  pub State : Type 0
  -- the status: negative on failure
  pub sodium_init : State → ℤ × State
  -- an address, or `none` for a null pointer
  pub sodium_malloc : State → ℕ → Option ℕ × State
  pub sodium_free : State → ℕ → State
