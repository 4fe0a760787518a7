-- ===== src/Types/SecureString/Lines.antt =====
-- types/string.hpp: what `getline` reads.
use sylvite.Common.{
  ℕ, Bool, true, false, ◌≡◌, refl, [], ◌∷◌, ◌++◌, append_assoc, append-nil, Bytes, ◌==◌, ◌||◌, ◌&&◌,
  if◌then◌else◌, Bool-cases, inl, inr, ok, All, ==_refl,
}
use sylvite.Internal.Base.{Base, char_type, wipe}
use sylvite.Internal.Base.Text.{holding, push_back-holding, wipe-holding}
use sylvite.Types.SecureString.{ignore_line, read_chars, skips_line, getline}

-- No character of the line is the delimiter.
abbrev pub Avoids : ℕ → Bytes → Type 0
Avoids delim = All λ c. (c == delim) ≡ false

read_chars-line :
    (delim : ℕ) (line input text : Bytes)
    → Avoids delim line
    → read_chars delim (line ++ delim ∷ input) (holding text) ≡ ok (holding (text ++ line), input)
unfolding read_chars
read_chars-line delim [] input text h = rw (==_refl delim, append-nil)
read_chars-line delim (c ∷ line) input text h = rw (
  h.0,
  push_back-holding text c,
  read_chars-line delim line input (text ++ c ∷ []) h.1,
  append_assoc text (c ∷ []) line,
)

-- A line that starts with neither a newline nor a carriage return, and has the delimiter behind it, is
-- read whole into any String, whose old text is gone; the delimiter is consumed and not stored.
pub getline-line :
    (in_avail : Bool) (delim first : ℕ) (line input old : Bytes)
    → (first == b'\n') ≡ false
    → (first == b'\r') ≡ false
    → Avoids delim (first ∷ line)
    → getline in_avail (first ∷ line ++ delim ∷ input) (holding old) delim
      ≡ ok (holding (first ∷ line), input)
unfolding getline
getline-line true delim first line input old n r h =
    rw (n, r, wipe-holding old) (read_chars-line delim (first ∷ line) input [] h)
getline-line false delim first line input old n r h =
    rw (n, wipe-holding old) (read_chars-line delim (first ∷ line) input [] h)

-- The characters in front of the first delimiter, or all of them, and those behind it.
abbrev pub before_delim : ℕ → Bytes → Bytes
before_delim delim [] = []
before_delim delim (c ∷ input) = if c == delim then [] else c ∷ before_delim delim input

abbrev pub behind_delim : ℕ → Bytes → Bytes
behind_delim delim [] = []
behind_delim delim (c ∷ input) = if c == delim then input else behind_delim delim input

read_chars-holding :
    (delim : ℕ) (input text : Bytes)
    → read_chars delim input (holding text)
      ≡ ok (holding (text ++ before_delim delim input), behind_delim delim input)
unfolding read_chars
read_chars-holding delim [] text = rw append-nil
read_chars-holding delim (c ∷ input) text = elim (Bool-cases (c == delim)) [
  | inl stop ↦ rw (stop, append-nil)
  | inr more ↦ rw (
    more,
    push_back-holding text c,
    read_chars-holding delim input (text ++ c ∷ []),
    append_assoc text (c ∷ []) (before_delim delim input),
  )
]

-- The input that `getline` reads from: a first line is left out that starts with a newline, or with a
-- carriage return when the buffer has characters.
abbrev pub line_start : Bool → Bytes → Bytes
line_start in_avail [] = []
line_start in_avail (c ∷ input) =
    if c == b'\n' || (in_avail && c == b'\r') then behind_delim b'\n' (c ∷ input) else c ∷ input

pub ignore_line-behind_delim : (input : Bytes) → ignore_line input ≡ behind_delim b'\n' input
unfolding ignore_line
ignore_line-behind_delim [] = refl
ignore_line-behind_delim (c ∷ input) = rw (ignore_line-behind_delim input)

-- Whatever the input, the delimiter and the text before are, `getline` returns without a fault: after the
-- line it may leave out, the text is what stands in front of the first delimiter, or all that is left if
-- there is none, and the input goes on behind that delimiter.
pub getline_total :
    (in_avail : Bool) (delim : ℕ) (input old : Bytes)
    → getline in_avail input (holding old) delim
      ≡ ok (
        holding (before_delim delim (line_start in_avail input)),
        behind_delim delim (line_start in_avail input),
      )
unfolding getline skips_line
getline_total in_avail delim [] old = rw (wipe-holding old) (read_chars-holding delim [] [])
getline_total in_avail delim (c ∷ input) old =
    rw (wipe-holding old, ignore_line-behind_delim (c ∷ input))
      (read_chars-holding delim (line_start in_avail (c ∷ input)) [])

-- What `getline` does to any String, also one that was moved from.
pub getline-line_start :
    (in_avail : Bool) (delim : ℕ) (input : Bytes) (b : Base char_type)
    → getline in_avail input b delim ≡ read_chars delim (line_start in_avail input) (wipe b)
unfolding getline skips_line
getline-line_start in_avail delim [] b = refl
getline-line_start in_avail delim (c ∷ input) b = rw (ignore_line-behind_delim (c ∷ input)) refl

ignore_line-append :
    (line input : Bytes) → Avoids b'\n' line → ignore_line (line ++ b'\n' ∷ input) ≡ input
unfolding ignore_line
ignore_line-append [] input h = refl
ignore_line-append (c ∷ line) input h = rw h.0 (ignore_line-append line input h.1)

-- A first carriage return drops the whole line behind it, when the buffer has characters: the line
-- after that is read in its place, whatever the dropped line holds.
pub getline_carriage_return :
    (delim : ℕ) (lost line input old : Bytes)
    → Avoids b'\n' lost
    → Avoids delim line
    → getline true (b'\r' ∷ lost ++ b'\n' ∷ (line ++ delim ∷ input)) (holding old) delim
      ≡ ok (holding line, input)
unfolding getline ignore_line
getline_carriage_return delim lost line input old h k =
    rw (ignore_line-append lost (line ++ delim ∷ input) h, wipe-holding old)
      (read_chars-line delim line input [] k)
