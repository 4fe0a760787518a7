-- ===== src/Utils/Console/Secrets.antt =====
-- utils/console.hpp, read_from_console: what it returns for any input.
use sylvite.Common.{
  ◌≡◌, refl, ◌||◌, [], ◌∷◌, ◌++◌, append_assoc, append-nil, Bytes, ◌==◌, if◌then◌else◌, Option, ok,
  Bool-cases, inl, inr,
}
use sylvite.Sodium.Terminal.{Terminal}
use sylvite.Internal.Base.Text.{holding, push_back-holding}
use sylvite.Types.SecureString.{new}
use sylvite.Utils.Console.{read_secret, shown, read_from_console}

-- The specification: the characters in front of the first newline or carriage return, and those behind it.
abbrev pub first_line : Bytes → Bytes
first_line [] = []
first_line (c ∷ input) = if c == b'\n' || c == b'\r' then [] else c ∷ first_line input

abbrev pub behind_line : Bytes → Bytes
behind_line [] = []
behind_line (c ∷ input) = if c == b'\n' || c == b'\r' then input else behind_line input

read_secret-holding :
    (input text : Bytes)
    → read_secret input (holding text) ≡ ok (holding (text ++ first_line input), behind_line input)
unfolding read_secret
read_secret-holding [] text = rw append-nil
read_secret-holding (c ∷ input) text = elim (Bool-cases (c == b'\n' || c == b'\r')) [
  | inl stop ↦ rw (stop, append-nil)
  | inr more ↦ rw (
    more,
    push_back-holding text c,
    read_secret-holding input (text ++ c ∷ []),
    append_assoc text (c ∷ []) (first_line input),
  )
]

-- Whatever the terminal does and whatever the input holds, the prompt is written, and a String comes back
-- without a fault: the characters in front of the first newline or carriage return, or all of them if
-- there is none; the input goes on behind that character.
pub read_from_console-first_line :
    (t : Terminal) (st : t.State) (prompt : Option Bytes) (input : Bytes)
    → let (after, written, outcome) = read_from_console t st prompt input in
      (written ≡ shown prompt) × (outcome ≡ ok (holding (first_line input), behind_line input))
unfolding read_from_console new
read_from_console-first_line t st prompt input = (refl, read_secret-holding input [])
