-- ===== src/Init.antt =====
-- init.hpp: the one-time initialisation of libsodium.
pub mod Retries
pub mod Threads
use sylvite.Common.{ℕ, Bool, true, if◌then◌else◌, Outcome, ok, throw, undefined, init_error}
use sylvite.Common.Int.{ℤ, pos, negsuc, is_negative}
use sylvite.Sodium.Library.{Library}

-- The static variable of `ensure_init`, by whether it has been initialised, and libsodium.
pub record Process (lib : Library) : Type 0 where
  pub ok_is_set : Bool
  pub state : lib.State

module _ (lib : Library) where
  -- An exception in the initialiser leaves the static variable to be initialised by the next call.
  unfoldable pub ensure_init : Process lib → Process lib × Outcome (Unit {0})
  ensure_init process =
      if process.ok_is_set
      then (process, ok tt)
      else let (status, st) = lib.sodium_init process.state in
        if is_negative status
        then (record process { state = st }, throw init_error)
        else (record { ok_is_set = true; state = st }, ok tt)

  -- The catch takes init_error, all that `ensure_init` throws.
  status_of : Outcome (Unit {0}) → ℤ
  status_of (ok done) = pos 0
  status_of (throw e) = negsuc 0
  status_of undefined = negsuc 0

  unfoldable pub init : Process lib → Process lib × ℤ
  unfolding ensure_init status_of
  init process = let (after, done) = ensure_init process in (after, status_of done)
