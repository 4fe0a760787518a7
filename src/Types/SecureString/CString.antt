-- ===== src/Types/SecureString/CString.antt =====
-- types/string.hpp, c_str: a reader of a C string stays within a text.
use sylvite.Common.{◌≡◌, refl, [], ◌∷◌, Bytes, ◌==◌, if◌then◌else◌, ok, Bool-cases, inl, inr}
use sylvite.Internal.Base.Text.{holding}
use sylvite.Types.SecureString.{read_terminated, c_str}

-- The characters in front of the first zero.
abbrev pub before_zero : Bytes → Bytes
before_zero [] = []
before_zero (c ∷ text) = if c == 0 then [] else c ∷ before_zero text

-- Behind the pointer that c_str() returns for a text, whatever its characters, a C string ends within the
-- buffer; it is the text up to its first zero, or all of it if it has none.
pub c_str-holding : (text : Bytes) → c_str (holding text) ≡ ok (before_zero text)
unfolding c_str read_terminated
c_str-holding [] = refl
c_str-holding (c ∷ text) = elim (Bool-cases (c == 0)) [
  | inl ends ↦ rw ends
  | inr more ↦ rw (more, c_str-holding text)
]
