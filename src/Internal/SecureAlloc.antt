-- ===== src/Internal/SecureAlloc.antt =====
-- internal/salloc.hpp: the allocator s_alloc<T>. The argument `sizeof_t` is `sizeof(T)`.
pub mod Requests
use sylvite.Common.{
  ℕ, ◌*◌, ◌/◌, ◌-◌, ◌%◌, ◌^◌, Bool, true, false, ltb, ◌==◌, if◌then◌else◌, Option, none, some,
  Outcome, ok, throw, or_throw, ◌>>=◌, runtime_error, std_bad_alloc, std_bad_array_new_length,
}
use sylvite.Common.Int.{ℤ, is_negative, u64_mod}
use sylvite.Sodium.Library.{Library}

module _ (lib : Library) where
  -- The state after the call; a null pointer is `none`.
  unfoldable pub allocate : ℕ → lib.State → ℕ → lib.State × Outcome (Option ℕ)
  allocate sizeof_t st n =
      let (status, ready) = lib.sodium_init st in
      if is_negative status
      then (ready, throw runtime_error)
      else if n == 0
      then (ready, ok none)
      else if ltb ((u64_mod - 1) / sizeof_t) n
      then (ready, throw std_bad_array_new_length)
      else let (p, after) = lib.sodium_malloc ready (n * sizeof_t % u64_mod) in
        (after, or_throw p std_bad_alloc >>= λ address. ok (some address))

  unfoldable pub deallocate : lib.State → ℕ → ℕ → lib.State
  deallocate st p n = lib.sodium_free st p

-- operator== and operator!=: every allocator can free what another has allocated.
unfoldable pub equals : Bool
equals = true

unfoldable pub not_equals : Bool
not_equals = false
