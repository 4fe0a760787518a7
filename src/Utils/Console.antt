-- ===== src/Utils/Console.antt =====
-- utils/console.hpp on a POSIX system: the terminal without its echo, and a secret read from it. Standard
-- input is the list of the characters to come, up to the end of the file.
pub mod Echo
pub mod Secrets
pub mod Ended
pub mod Windows
use sylvite.Common.{
  ℕ, Bool, true, false, ◌||◌, [], ◌∷◌, Bytes, ◌==◌, if◌then◌else◌, Option, none, some, Outcome, ok,
  ◌>>=◌,
}
use sylvite.Sodium.Terminal.{Terminal, tcsanow, tcsaflush}
use sylvite.Internal.Base.{Base, char_type, push_back}
use sylvite.Types.SecureString.{new, ignore_line}

-- `old` is `none` as long as the member has not been filled.
pub record DisableEcho (t : Terminal) : Type 0 where
  pub old : Option t.Settings
  pub success : Bool

module _ (t : Terminal) where
  -- DisableEcho(): the terminal after it, and the object.
  unfoldable pub disable : t.State → t.State × DisableEcho t
  disable st =
      if t.isatty st
      then elim (t.tcgetattr st) [
        | none ↦ (st, record { old = none; success = false })
        | some old ↦ elim (t.tcsetattr tcsanow (t.without_echo old) st) [
          | none ↦ (st, record { old = some old; success = false })
          | some quiet ↦ (quiet, record { old = some old; success = true })
        ]
      ]
      else (st, record { old = none; success = false })

  unfoldable pub is_applied : DisableEcho t → Bool
  is_applied echo = echo.success

  -- tcsetattr with what the constructor has saved.
  restore : t.State → Option t.Settings → t.State
  restore st none = st
  restore st (some old) = elim (t.tcsetattr tcsaflush old st) [ none ↦ st | some back ↦ back ]

  -- ~DisableEcho()
  unfoldable pub destroy : t.State → DisableEcho t → t.State
  unfolding restore
  destroy st echo = if echo.success then restore st echo.old else st

-- `while (std::cin.get(c_)) { if (c_ == '\n' || c_ == '\r') break; si_.push_back(c_); }`
pub read_secret : Bytes → Base char_type → Outcome (Base char_type × Bytes)
read_secret [] si = ok (si, [])
read_secret (c ∷ input) si =
    let rest = push_back si c >>= read_secret input in
    if c == b'\n' || c == b'\r' then ok (si, input) else rest

abbrev pub shown : Option Bytes → Bytes
shown none = []
shown (some prompt) = prompt

-- The terminal and the text written to it, and the String with the input that is left.
module _ (t : Terminal) where
  unfoldable pub read_from_console :
      t.State → Option Bytes → Bytes → t.State × Bytes × Outcome (Base char_type × Bytes)
  unfolding disable destroy
  read_from_console st prompt input =
      let (quiet, eg) = disable t st in
      let si = read_secret input new in (destroy t quiet eg, shown prompt, si)

-- What is written to standard output.
unfoldable pub ansi_clear : Bytes
ansi_clear = 27 ∷ b'[' ∷ b'2' ∷ b'J' ∷ 27 ∷ b'[' ∷ b'3' ∷ b'J' ∷ 27 ∷ b'[' ∷ b'H' ∷ []

-- `cin_.ignore(max, ign_)`: what stands behind the first `ign`.
unfoldable pub cin_clear : Bytes → ℕ → Bytes
cin_clear [] ign = []
cin_clear (c ∷ input) ign = if c == ign then input else cin_clear input ign

-- SystemClear(): the command for system(), which the file does not define.
unfoldable pub system_clear : {S : Type 0} → (Bytes → S → S) → Bool → S → S
system_clear system win32 st =
    system (if win32 then b'c' ∷ b'l' ∷ b's' ∷ [] else b'c' ∷ b'l' ∷ b'e' ∷ b'a' ∷ b'r' ∷ []) st
