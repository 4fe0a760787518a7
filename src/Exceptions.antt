-- ===== src/Exceptions.antt =====
-- exceptions/exceptions.hpp: what an exception says, and which handlers it reaches. The calls of the other
-- files throw the class alone, `Common.Exception`.
pub mod Handled
use sylvite.Common.{
  ℕ, Bool, true, false, [], ◌∷◌, Bytes, ◌==◌, if◌then◌else◌, Exception, init_error, logic_error,
  index_error, empty_string_error, decodification_error, derivation_error, out_of_range_error,
  runtime_error, invalid_signature, expired_token_error, std_runtime_error, std_invalid_argument,
  std_bad_alloc, std_bad_array_new_length,
}

-- The class of the object, and the member `error_` of its base class.
pub record SodiumException : Type 0 where
  pub thrown_as : Exception
  pub error : Bytes

-- What stands behind a pointer to a C string: the bytes in front of the first zero.
abbrev pub c_string : Bytes → Bytes
c_string [] = []
c_string (c ∷ text) = if c == 0 then [] else c ∷ c_string text

-- The constructors from a std::string. SodiumIndexError passes on a C string.
unfoldable pub of_string : Exception → Bytes → SodiumException
of_string index_error text = record { thrown_as = index_error; error = c_string text }
of_string logic_error text = record { thrown_as = logic_error; error = text }
of_string thrown_as text = record { thrown_as = thrown_as; error = text }

-- The constructors from a C string.
unfoldable pub of_c_string : Exception → Bytes → SodiumException
of_c_string thrown_as text = record { thrown_as = thrown_as; error = c_string text }

-- SodiumInitError()
unfoldable pub init_failed : SodiumException
init_failed = record {
  thrown_as = init_error;
  error =
      b's' ∷ b'o' ∷ b'd' ∷ b'i' ∷ b'u' ∷ b'm' ∷ b'_' ∷ b'i' ∷ b'n' ∷ b'i' ∷ b't' ∷ b' ' ∷ b'f'
      ∷ b'a' ∷ b'i' ∷ b'l' ∷ b'e' ∷ b'd' ∷ b' ' ∷ b't' ∷ b'o' ∷ b' ' ∷ b'i' ∷ b'n' ∷ b'i' ∷ b't'
      ∷ b'i' ∷ b'a' ∷ b'l' ∷ b'i' ∷ b'z' ∷ b'e' ∷ b' ' ∷ b's' ∷ b'a' ∷ b'f' ∷ b'e' ∷ b'l' ∷ b'y'
      ∷ b'.' ∷ [];
}

-- what(): the C string that the caller reads.
unfoldable pub what : SodiumException → Bytes
what e = c_string e.error

-- The classes derived from sodium_exception: what `catch (const sodium_exception&)` handles.
unfoldable pub is_sodium_exception : Exception → Bool
is_sodium_exception std_runtime_error = false
is_sodium_exception std_invalid_argument = false
is_sodium_exception std_bad_alloc = false
is_sodium_exception std_bad_array_new_length = false
is_sodium_exception _ = true
