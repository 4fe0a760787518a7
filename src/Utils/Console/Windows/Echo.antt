-- ===== src/Utils/Console/Windows/Echo.antt =====
-- utils/console.hpp, class DisableEcho on Windows: the mode that it saves is set again.
use sylvite.Common.{◌≡◌, ◌⊎◌, inl, inr, refl, true, false, Option-cases, none, some}
use sylvite.Sodium.WindowsConsole.{WindowsConsole}
use sylvite.Utils.Console.Windows.{disable, destroy, restore}

module _ (w : WindowsConsole) where
  -- Where a DisableEcho object has no success, its constructor and destructor leave the console as it was;
  -- where it has, the console was set to the mode that it had without the echo, and the destructor sets
  -- the mode that it had, or leaves the console if that call fails, and sends the event.
  pub destroy-disable_windows :
      (st : w.State)
      → let (quiet, echo) = disable w st in
        ((echo.success ≡ false) × (quiet ≡ st) × (destroy w quiet echo ≡ st))
        ⊎ ((echo.success ≡ true)
            × (h : w.Handle) × (old : w.Mode) × (w.get_console_mode h st ≡ some old)
            × (w.set_console_mode h (w.without_echo old) st ≡ some quiet)
            × (((back : w.State) × (w.set_console_mode h old quiet ≡ some back)
                  × (destroy w quiet echo ≡ w.write_focus_event h back))
                ⊎ ((w.set_console_mode h old quiet ≡ none)
                    × (destroy w quiet echo ≡ w.write_focus_event h quiet))))
  unfolding disable destroy
  destroy-disable_windows st = elim (Option-cases (w.get_std_handle st)) [
    | inl invalid ↦ rw (disable, invalid) (inl (refl, refl, refl))
    | inr (h, handle) ↦ elim (Option-cases (w.get_console_mode h st)) [
      | inl unread ↦ rw (disable, handle, unread) (inl (refl, refl, refl))
      | inr (old, read) ↦ elim (Option-cases (w.set_console_mode h (w.without_echo old) st)) [
        | inl failed ↦ rw (disable, handle, read, failed) (inl (refl, refl, refl))
        | inr (quiet, set) ↦ elim (Option-cases (w.set_console_mode h old quiet)) [
          | inl kept ↦
              rw (disable, handle, read, set)
                (inr (refl, h, old, read, set, inr (kept, rw (restore, kept) refl)))
          | inr (back, restored) ↦
              rw (disable, handle, read, set)
                (inr (refl, h, old, read, set, inl (back, restored, rw (restore, restored) refl)))
        ]
      ]
    ]
  ]
