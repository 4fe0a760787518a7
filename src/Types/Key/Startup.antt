-- ===== src/Types/Key/Startup.antt =====
-- types/key.hpp with internal/salloc.hpp and init.hpp: what the constructor from a size does to libsodium.
pub mod Ready
use sylvite.Common.{ℕ, ◌==◌, if◌then◌else◌, Option, none, Outcome, ok, throw, undefined, ◌>>=◌}
use sylvite.Sodium.Library.{Library}
use sylvite.Init.{Process, ensure_init}
use sylvite.Internal.Base.{Base, byte_type}
use sylvite.Internal.SecureAlloc.{allocate}
use sylvite.Types.Key.{new}

module _ (lib : Library) where
  -- The constructor's body, once the base has its memory.
  unfoldable pub body :
      Process lib → ℕ → Outcome (Option ℕ) → Process lib × Outcome (Base byte_type)
  body process n (ok address) =
      let (after, done) = ensure_init lib process in (after, done >>= λ d. ok (new n))
  body process n (throw e) = (process, throw e)
  body process n undefined = (process, undefined)

  -- Key(size): the base is constructed first, and its vector allocates if it has elements.
  unfoldable pub construct : Process lib → ℕ → Process lib × Outcome (Base byte_type)
  unfolding body
  construct process n =
      if n == 0
      then body process n (ok none)
      else let (st, p) = allocate lib 1 process.state n in body (record process { state = st }) n p
