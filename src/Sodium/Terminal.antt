-- ===== src/Sodium/Terminal.antt =====
-- The terminal behind standard input, through isatty, tcgetattr and tcsetattr.
use sylvite.Common.{Bool, Option}

-- When a change takes place: at once, or after the input that is not yet read has been dropped.
pub data Action : Type 0 where
  tcsanow tcsaflush : Action

-- `none` is a nonzero status; a call that fails leaves the terminal as it was.
pub record Terminal : Type 1 where
  pub State : Type 0
  pub Settings : Type 0
  pub isatty : State → Bool
  pub tcgetattr : State → Option Settings
  pub tcsetattr : Action → Settings → State → Option State
  -- settings with the flag ECHO cleared
  pub without_echo : Settings → Settings
