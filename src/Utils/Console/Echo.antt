-- ===== src/Utils/Console/Echo.antt =====
-- utils/console.hpp, class DisableEcho and read_from_console: the echo of the terminal around a read.
use sylvite.Common.{◌≡◌, ◌⊎◌, false, none, some}
use sylvite.Sodium.Terminal.{Terminal, tcsanow, tcsaflush}

module _ (t : Terminal) where
  -- The echo cannot be switched off: there is no terminal, or a call for its settings fails.
  abbrev pub Refuses : t.State → Type 0
  Refuses st =
      (t.isatty st ≡ false)
      ⊎ (t.tcgetattr st ≡ none)
      ⊎ ((old : t.Settings) × (t.tcgetattr st ≡ some old)
          × (t.tcsetattr tcsanow (t.without_echo old) st ≡ none))

  -- The call that gives the terminal the settings back leads to this state, or fails in it.
  abbrev pub GivesBack : t.Settings → t.State → t.State → Type 0
  GivesBack old quiet after =
      (t.tcsetattr tcsaflush old quiet ≡ some after)
      ⊎ ((t.tcsetattr tcsaflush old quiet ≡ none) × (after ≡ quiet))
