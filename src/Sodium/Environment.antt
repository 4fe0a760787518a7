-- ===== src/Sodium/Environment.antt =====
-- One call's view of the random source and of the clock.
use sylvite.Common.{ℕ, ◌≡◌, Bytes, length}
use sylvite.Common.Int.{ℤ}

pub record Environment : Type 0 where
  -- what `randombytes_buf(p, n)` writes
  pub randombytes_buf : ℕ → Bytes
  pub length-randombytes_buf : (n : ℕ) → length (randombytes_buf n) ≡ n
  -- `system_clock::now().time_since_epoch()` in whole seconds
  pub system_clock_secs : ℤ
