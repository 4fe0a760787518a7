-- ===== src/Types/SecureString/Reused.antt =====
-- types/string.hpp and internal/base.hpp: what becomes of a String that was moved from.
use sylvite.Common.{
  ℕ, ◌-◌, ◌^◌, ◌<◌, ◌≡◌, refl, Bool, true, false, if◌then◌else◌, List, [], ◌∷◌, Bytes, ◌==◌, ok,
  undefined, Bool-cases, inl, inr,
}
use sylvite.Internal.Base.{Base, char_type, size, at, to_bool, push_back, pop_back, wipe}
use sylvite.Internal.Base.Moved.{move, move_assign, move-text}
use sylvite.Types.SecureString.{getline, read_chars, skips_line, swap}
use sylvite.Types.SecureString.Lines.{
  before_delim, behind_delim, line_start, ignore_line-behind_delim,
}
use sylvite.Types.SecureString.Refinement.{Call, push, pop, wiped, run}

-- A call that appends a character is among these.
abbrev pub pushes : List Call → Bool
pushes [] = false
pushes (push c ∷ calls) = true
pushes (pop ∷ calls) = pushes calls
pushes (wiped ∷ calls) = pushes calls

abbrev pub is_nil : Bytes → Bool
is_nil [] = true
is_nil (c ∷ bytes) = false

abbrev pub left_behind : Base char_type
left_behind = record { vec = [] }

run-left_behind :
    (calls : List Call)
    → run calls left_behind ≡ (if pushes calls then undefined else ok left_behind)
unfolding run push_back pop_back wipe
run-left_behind [] = refl
run-left_behind (push c ∷ calls) = refl
run-left_behind (pop ∷ calls) = run-left_behind calls
run-left_behind (wiped ∷ calls) = run-left_behind calls

read_chars-left_behind :
    (delim : ℕ) (input : Bytes)
    → read_chars delim input left_behind ≡ (
        if is_nil (before_delim delim input)
        then ok (left_behind, behind_delim delim input)
        else undefined)
unfolding read_chars push_back
read_chars-left_behind delim [] = refl
read_chars-left_behind delim (c ∷ input) = elim (Bool-cases (c == delim)) [
  | inl stop ↦ rw stop refl
  | inr more ↦ rw more refl
]

getline-left_behind :
    (in_avail : Bool) (delim : ℕ) (input : Bytes)
    → getline in_avail input left_behind delim ≡ (
        if is_nil (before_delim delim (line_start in_avail input))
        then ok (left_behind, behind_delim delim (line_start in_avail input))
        else undefined)
unfolding getline skips_line wipe
getline-left_behind in_avail delim [] = read_chars-left_behind delim []
getline-left_behind in_avail delim (c ∷ input) =
    rw (ignore_line-behind_delim (c ∷ input))
      (read_chars-left_behind delim (line_start in_avail (c ∷ input)))

-- A move leaves a String that push_back, pop_back, wipe and getline do not repair: its size is 2 ^ 64 - 1 and it counts as non-empty, by
-- which at() lets every smaller index through to read outside the buffer; any calls of push_back,
-- pop_back and wipe are undefined if one of them is push_back, and else leave it as it is; and getline into it is
-- undefined unless the line it reads is empty. The String moved to has the text; and swap with another
-- String, or the move assignment of one, makes the old object that String.
pub run-move :
    (b : Base char_type) (calls : List Call) (i : ℕ) (in_avail : Bool) (delim : ℕ) (input : Bytes)
    (other : Base char_type)
    → i < 2 ^ 64 - 1
    → let (taken, left) = move b in
      (taken ≡ b)
      × (size left ≡ 2 ^ 64 - 1)
      × (to_bool left ≡ true)
      × (at left i ≡ undefined)
      × (run calls left ≡ (if pushes calls then undefined else ok left))
      × (getline in_avail input left delim ≡ (
          if is_nil (before_delim delim (line_start in_avail input))
          then ok (left, behind_delim delim (line_start in_avail input))
          else undefined))
      × ((swap left other).0 ≡ other)
      × ((move_assign left other).0 ≡ other)
unfolding move swap move_assign
run-move b calls i in_avail delim input other h =
    let (kept, large, counts, outside, _, _, _, _, _, _) = move-text b i 0 h in
    (
      kept,
      large,
      counts,
      outside,
      run-left_behind calls,
      getline-left_behind in_avail delim input,
      refl,
      refl,
    )
