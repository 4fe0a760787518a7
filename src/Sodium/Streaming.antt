-- ===== src/Sodium/Streaming.antt =====
-- libsodium's hash states: read in parts, then finished.
use sylvite.Common.{◌≡◌, Option, some, ◌++◌, Bytes}

-- `none` is a nonzero status; a call that fails leaves the state as it was.
pub record Streaming : Type 1 where
  pub State : Type 0
  pub absorb : State → Bytes → Option State
  pub final : State → Option (Bytes × State)

-- What the parts add up to: `whole` is the function of the whole message, and `Absorbed m st` says that
-- the state has read the message.
pub record StreamingLaws (s : Streaming) (whole : Bytes → Option Bytes) : Type 1 where
  pub Absorbed : Bytes → s.State → Type 0
  pub absorb-Absorbed :
      (m : Bytes) (st : s.State) (part : Bytes)
      → Absorbed m st
      → (st' : s.State) × (s.absorb st part ≡ some st') × Absorbed (m ++ part) st'
  pub final-Absorbed :
      (m out : Bytes) (st : s.State)
      → Absorbed m st
      → whole m ≡ some out
      → (st' : s.State) × (s.final st ≡ some (out, st'))
