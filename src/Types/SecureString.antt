-- ===== src/Types/SecureString.antt =====
-- types/string.hpp: the class String, `Base<char>` with two constructors, and `getline`.
pub mod Refinement
pub mod Lines
pub mod CString
pub mod Turns
pub mod Reused
use sylvite.Common.{
  ℕ, zero, suc, Bool, true, false, not, ◌&&◌, ◌||◌, List, [], ◌∷◌, ◌++◌, Bytes, ◌==◌, if◌then◌else◌,
  Outcome, ok, undefined, ◌>>=◌,
}
use sylvite.Internal.Base.{Base, char_type, push_back, wipe, of_span}

-- String(init_cap): the capacity is left out, so only the terminator is pushed.
unfoldable pub new : Base char_type
new = record { vec = [] ++ 0 ∷ [] }

-- `v.empty() || v.back() != '\0'`
needs_terminator : Bytes → Bool
needs_terminator [] = true
needs_terminator (c ∷ []) = not (c == 0)
needs_terminator (c ∷ d ∷ rest) = needs_terminator (d ∷ rest)

-- String(Vector<char>&& r_v): the base takes the vector over, and the test then reads `r_v` again,
-- which the move has left empty.
unfoldable pub from_vector : Bytes → Base char_type
unfolding needs_terminator
from_vector r_v =
    let moved_from : Bytes = [] in
    if needs_terminator moved_from then record { vec = r_v ++ 0 ∷ [] } else record { vec = r_v }

-- `is.ignore(max, '\n')`: what stands behind the first newline.
pub ignore_line : Bytes → Bytes
ignore_line [] = []
ignore_line (c ∷ input) = if c == b'\n' then input else ignore_line input

-- `while (is.get(c)) { if (c == delim) break; str.push_back(c); }`
pub read_chars : ℕ → Bytes → Base char_type → Outcome (Base char_type × Bytes)
read_chars delim [] str = ok (str, [])
read_chars delim (c ∷ input) str =
    let rest = push_back str c >>= read_chars delim input in
    if c == delim then ok (str, input) else rest

-- The test on the first character; `in_avail` stands for `is.rdbuf()->in_avail() > 0`.
skips_line : Bool → Bytes → Bool
skips_line in_avail [] = false
skips_line in_avail (c ∷ input) = c == b'\n' || (in_avail && c == b'\r')

-- getline: the text read, and the input that is left.
unfoldable pub getline : Bool → Bytes → Base char_type → ℕ → Outcome (Base char_type × Bytes)
unfolding skips_line read_chars ignore_line
getline in_avail input str delim =
    read_chars delim (if skips_line in_avail input then ignore_line input else input) (wipe str)

-- c_str(): what a reader of a C string finds behind the pointer, undefined if it runs off the end.
read_terminated : Bytes → Outcome Bytes
read_terminated [] = undefined
read_terminated (c ∷ bytes) =
    let rest = read_terminated bytes in if c == 0 then ok [] else rest >>= λ more. ok (c ∷ more)

unfoldable pub c_str : Base char_type → Outcome Bytes
unfolding read_terminated
c_str b = read_terminated b.vec

-- Both functions of the name.
unfoldable pub swap : Base char_type → Base char_type → Base char_type × Base char_type
swap a b = (b, a)
