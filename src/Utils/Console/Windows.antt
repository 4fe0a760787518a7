-- ===== src/Utils/Console/Windows.antt =====
-- utils/console.hpp, class DisableEcho on Windows.
pub mod Echo
use sylvite.Common.{Bool, true, false, if◌then◌else◌, Option, none, some}
use sylvite.Sodium.WindowsConsole.{WindowsConsole}

-- `none` stands for members that have not been filled.
pub record DisableEcho (w : WindowsConsole) : Type 0 where
  pub std_in : Option w.Handle
  pub old_mode : Option w.Mode
  pub success : Bool

module _ (w : WindowsConsole) where
  -- DisableEcho(): the console after it, and the object.
  unfoldable pub disable : w.State → w.State × DisableEcho w
  disable st = elim (w.get_std_handle st) [
    | none ↦ (st, record { std_in = none; old_mode = none; success = false })
    | some h ↦ elim (w.get_console_mode h st) [
      | none ↦ (st, record { std_in = some h; old_mode = none; success = false })
      | some old ↦ elim (w.set_console_mode h (w.without_echo old) st) [
        | none ↦ (st, record { std_in = some h; old_mode = some old; success = false })
        | some quiet ↦ (quiet, record { std_in = some h; old_mode = some old; success = true })
      ]
    ]
  ]

  -- SetConsoleMode with what the constructor has saved, and the event, whether it succeeds or not.
  restore : w.State → Option w.Handle → Option w.Mode → w.State
  restore st none old = st
  restore st (some h) none = st
  restore st (some h) (some old) = elim (w.set_console_mode h old st) [
    | none ↦ w.write_focus_event h st
    | some back ↦ w.write_focus_event h back
  ]

  -- ~DisableEcho()
  unfoldable pub destroy : w.State → DisableEcho w → w.State
  unfolding restore
  destroy st echo = if echo.success then restore st echo.std_in echo.old_mode else st
