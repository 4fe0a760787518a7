-- ===== src/Sodium/WindowsConsole.antt =====
-- The console of Windows, through GetStdHandle, GetConsoleMode, SetConsoleMode and WriteConsoleInput.
use sylvite.Common.{Option}

-- `none` is an invalid handle or a result of FALSE; a call that fails leaves the console as it was.
pub record WindowsConsole : Type 1 where
  pub State : Type 0
  pub Handle : Type 0
  pub Mode : Type 0
  pub get_std_handle : State → Option Handle
  pub get_console_mode : Handle → State → Option Mode
  pub set_console_mode : Handle → Mode → State → Option State
  -- one event of the window getting the focus
  pub write_focus_event : Handle → State → State
  -- a mode with ENABLE_ECHO_INPUT cleared
  pub without_echo : Mode → Mode
