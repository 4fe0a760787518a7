-- ===== src/Types/Nonce/Counter.antt =====
-- types/nonce.hpp: a nonce used as a counter does not repeat before it has run through its range.
use sylvite.Common.{
  ℕ, zero, suc, ◌+◌, ◌%◌, ◌^◌, ◌<◌, ◌≡◌, ◌≢◌, refl, ap, sym, ◌∙◌, Bytes, length, arith,
}
use native.Mathlib.Nat.{mod-add-mod, mod-mod, add_assoc, add-zero}
use native.Mathlib.Numerals.{add-one}
use sylvite.Sodium.Memory.{Memory, MemoryLaws, little_endian}
use sylvite.Internal.Base.{empty}
use sylvite.Internal.Base.Buffers.{size-bytes}
use sylvite.Types.Nonce.{Nonce, eager, increment}

unfoldable pub increment_times : Memory → ℕ → Nonce eager → Nonce eager
increment_times memory zero nonce = nonce
increment_times memory (suc n) nonce = increment memory (increment_times memory n nonce)

mod_step : (a k m : ℕ) → ((a + k) % m + 1) % m ≡ (a + suc k) % m
mod_step a k m = rw (mod-add-mod, add_assoc, add-one)

mod_differ : (a i j m : ℕ) → i < j → j < m → (a + i) % m ≢ (a + j) % m
mod_differ a i j m h k e = grind arith

module _ {memory : Memory} (laws : MemoryLaws memory) where
  buffer-increment :
      (nonce : Nonce eager)
      → 0 < length nonce.buffer.vec
      → (increment memory nonce).buffer.vec ≡ memory.sodium_increment nonce.buffer.vec
  unfolding increment empty
  buffer-increment nonce h = rw (size-bytes nonce.buffer) (ground arith)

  length-increment_times :
      (n : ℕ) (nonce : Nonce eager)
      → 0 < length nonce.buffer.vec
      → length (increment_times memory n nonce).buffer.vec ≡ length nonce.buffer.vec
  unfolding increment_times
  length-increment_times zero nonce h = refl
  length-increment_times (suc n) nonce h =
      let before = increment_times memory n nonce in
      let same = length-increment_times n nonce h in
      rw (buffer-increment before (omega (arith, same)), laws.length-increment before.buffer.vec)
        same

  value-increment_times :
      (n : ℕ) (nonce : Nonce eager)
      → 0 < length nonce.buffer.vec
      → little_endian (increment_times memory n nonce).buffer.vec % 256 ^ length nonce.buffer.vec
        ≡ (little_endian nonce.buffer.vec + n) % 256 ^ length nonce.buffer.vec
  unfolding increment_times
  value-increment_times zero nonce h = rw add-zero
  value-increment_times (suc n) nonce h =
      let before = increment_times memory n nonce in
      let m : ℕ = 256 ^ length nonce.buffer.vec in
      let same = length-increment_times n nonce h in
      rw (
        buffer-increment before (omega (arith, same)),
        laws.value-increment before.buffer.vec,
        same,
        mod-mod,
        ← mod-add-mod (little_endian before.buffer.vec) m 1,
        value-increment_times n nonce h,
        mod_step,
      )

  -- A non-empty nonce of n bytes does not repeat within its range: after i and after j increments,
  -- with i < j < 256 ^ n, its bytes differ.
  pub increment_times-differ :
      (i j : ℕ) (nonce : Nonce eager)
      → 0 < length nonce.buffer.vec
      → i < j
      → j < 256 ^ length nonce.buffer.vec
      → (increment_times memory i nonce).buffer.vec ≢ (increment_times memory j nonce).buffer.vec
  increment_times-differ i j nonce h ij bound e =
      mod_differ (little_endian nonce.buffer.vec) i j (256 ^ length nonce.buffer.vec) ij bound (
        sym (value-increment_times i nonce h)
        ∙ ap (λ (b : Bytes). little_endian b % 256 ^ length nonce.buffer.vec) e
        ∙ value-increment_times j nonce h)
