-- ===== src/Init/Retries.antt =====
-- init.hpp: the statuses of any number of calls of `init`.
use sylvite.Common.{
  ℕ, zero, suc, ◌+◌, ◌≡◌, refl, Bool, true, false, List, [], ◌∷◌, ◌++◌, replicate, arith,
}
use sylvite.Common.Int.{ℤ, pos, negsuc, is_negative}
use sylvite.Sodium.Library.{Library}
use sylvite.Init.{Process, init}

module _ (lib : Library) where
  -- The statuses of n calls, and the process behind them.
  unfoldable pub calls : ℕ → Process lib → Process lib × List ℤ
  calls zero process = (process, [])
  calls (suc n) process =
      let (after, status) = init lib process in
      let (last, statuses) = calls n after in (last, status ∷ statuses)

  -- libsodium after n attempts to initialise it.
  unfoldable pub attempts : ℕ → lib.State → lib.State
  attempts zero st = st
  attempts (suc n) st = attempts n (lib.sodium_init st).1

  -- The first k attempts fail and the next one does not.
  unfoldable pub SucceedsAfter : ℕ → lib.State → Type 0
  SucceedsAfter zero st = is_negative (lib.sodium_init st).0 ≡ false
  SucceedsAfter (suc k) st =
      (is_negative (lib.sodium_init st).0 ≡ true) × SucceedsAfter k (lib.sodium_init st).1

  abbrev pub process : Bool → lib.State → Process lib
  process ok_is_set st = record { ok_is_set = ok_is_set; state = st }

  init_fails :
      (st : lib.State)
      → is_negative (lib.sodium_init st).0 ≡ true
      → init lib (process false st) ≡ (process false (lib.sodium_init st).1, negsuc 0)
  unfolding init
  init_fails st failed = rw failed

  init_succeeds :
      (st : lib.State)
      → is_negative (lib.sodium_init st).0 ≡ false
      → init lib (process false st) ≡ (process true (lib.sodium_init st).1, pos 0)
  unfolding init
  init_succeeds st done = rw done

  calls-settled :
      (n : ℕ) (st : lib.State) → calls n (process true st) ≡ (process true st, replicate n (pos 0))
  unfolding calls init
  calls-settled zero st = refl
  calls-settled (suc n) st = rw (calls-settled n st)

  -- If libsodium fails to initialise k times and then does not, then of k + 1 + n calls of `init` the
  -- first k return -1 and all others 0, and libsodium has been asked to initialise k + 1 times in all.
  pub init_retries :
      (k n : ℕ) (st : lib.State)
      → SucceedsAfter k st
      → calls (k + suc n) (process false st)
        ≡ (process true (attempts (suc k) st), replicate k (negsuc 0) ++ replicate (suc n) (pos 0))
  unfolding calls attempts SucceedsAfter
  init_retries zero n st h =
      let count : 0 + suc n ≡ suc n = omega arith in
      rw (count, init_succeeds st h, calls-settled n (lib.sodium_init st).1)
  init_retries (suc k) n st (failed, h) =
      let count : suc k + suc n ≡ suc (k + suc n) = omega arith in
      rw (count, init_fails st failed, init_retries k n (lib.sodium_init st).1 h)
