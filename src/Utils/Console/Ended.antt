-- ===== src/Utils/Console/Ended.antt =====
-- utils/console.hpp and types/string.hpp: the loops that read characters come to an end.
use sylvite.Common.{
  ℕ, suc, ◌+◌, ◌<◌, ◌≡◌, ◌∙◌, ◌↔◌, refl, sym, ap, Bool, [], ◌∷◌, Bytes, length, arith, ◌==◌, ◌||◌,
  Option, some,
}
use sylvite.Sodium.Terminal.{Terminal}
use sylvite.Internal.Base.{Base, char_type, wipe}
use sylvite.Internal.Base.Text.{holding, wipe-holding}
use sylvite.Types.SecureString.{new, getline}
use sylvite.Types.SecureString.Lines.{
  before_delim, behind_delim, line_start, getline_total, getline-line_start,
}
use sylvite.Types.SecureString.Turns.{turns, before_stop, behind_stop, turns_iff, turns-read_chars}
use sylvite.Utils.Console.{read_from_console}
use sylvite.Utils.Console.Secrets.{first_line, behind_line, read_from_console-first_line}

-- `c_ == '\n' || c_ == '\r'`
abbrev pub line_ends : ℕ → Bool
line_ends c = c == b'\n' || c == b'\r'

before_stop-delim :
    (delim : ℕ) (input : Bytes) → before_stop (λ c. c == delim) input ≡ before_delim delim input
before_stop-delim delim [] = refl
before_stop-delim delim (c ∷ input) = rw (before_stop-delim delim input) refl

behind_stop-delim :
    (delim : ℕ) (input : Bytes) → behind_stop (λ c. c == delim) input ≡ behind_delim delim input
behind_stop-delim delim [] = refl
behind_stop-delim delim (c ∷ input) = rw (behind_stop-delim delim input) refl

before_stop-line : (input : Bytes) → before_stop line_ends input ≡ first_line input
before_stop-line [] = refl
before_stop-line (c ∷ input) = rw (before_stop-line input) refl

behind_stop-line : (input : Bytes) → behind_stop line_ends input ≡ behind_line input
behind_stop-line [] = refl
behind_stop-line (c ∷ input) = rw (behind_stop-line input) refl

turns_iff-getline :
    (in_avail : Bool) (delim : ℕ) (input old : Bytes) (fuel : ℕ)
    → (turns fuel (λ c. c == delim) (wipe (holding old)) (line_start in_avail input)
        ≡ some (getline in_avail input (holding old) delim))
      ↔ (length (before_delim delim (line_start in_avail input)) < fuel)
turns_iff-getline in_avail delim input old fuel =
    let start = line_start in_avail input in
    rw
      (
        getline_total in_avail delim input old,
        wipe-holding old,
        ← before_stop-delim delim start,
        ← behind_stop-delim delim start,
      )
      (turns_iff (λ c. c == delim) start [] fuel)

-- The loop of `getline`, which starts behind the line that may be left out, ends with what `getline`
-- returns, whatever String it is given, also one that was moved from, within every number of turns that is
-- more than the characters in front of the first delimiter; and for a String that holds a text and its
-- terminator exactly within those.
pub turns-getline :
    (in_avail : Bool) (delim : ℕ) (input old : Bytes) (b : Base char_type) (extra fuel : ℕ)
    → (turns
          (suc (length (before_delim delim (line_start in_avail input)) + extra))
          (λ c. c == delim)
          (wipe b)
          (line_start in_avail input)
        ≡ some (getline in_avail input b delim))
      × ((turns fuel (λ c. c == delim) (wipe (holding old)) (line_start in_avail input)
            ≡ some (getline in_avail input (holding old) delim))
          ↔ (length (before_delim delim (line_start in_avail input)) < fuel))
turns-getline in_avail delim input old b extra fuel = (
  turns-read_chars delim (line_start in_avail input) (wipe b)
        (suc (length (before_delim delim (line_start in_avail input)) + extra)) (omega arith)
      ∙ ap some (sym (getline-line_start in_avail delim input b)),
  turns_iff-getline in_avail delim input old fuel,
)

-- The loop of `read_from_console` ends within so many turns, and with what that returns, exactly if the turns are more than
-- the characters in front of the first newline or carriage return.
pub turns-read_from_console :
    (t : Terminal) (st : t.State) (prompt : Option Bytes) (input : Bytes) (fuel : ℕ)
    → (turns fuel line_ends new input ≡ some (read_from_console t st prompt input).2)
      ↔ (length (first_line input) < fuel)
unfolding new
turns-read_from_console t st prompt input fuel =
    rw
      (
        (read_from_console-first_line t st prompt input).1,
        ← before_stop-line input,
        ← behind_stop-line input,
      )
      (turns_iff line_ends input [] fuel)
