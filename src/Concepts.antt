-- ===== src/Concepts.antt =====
-- concepts.hpp: the constraints on the types that the functions are called with, as tests on what a type
-- offers.
pub mod Scalars
pub mod Containers
use sylvite.Common.{ℕ, Bool, true, false, not, ◌&&◌, ◌||◌, List, [], ◌∷◌, ◌==◌}

-- The arithmetic types, and std::byte, which is an enumeration; std::uint8_t is unsigned_char.
pub data Scalar : Type 0 where
  bool_type char_type signed_char unsigned_char wchar char8 char16 char32 : Scalar
  short unsigned_short int unsigned_int long unsigned_long long_long unsigned_long_long : Scalar
  float double long_double std_byte : Scalar

abbrev pub number_of : Scalar → ℕ
number_of bool_type = 0
number_of char_type = 1
number_of signed_char = 2
number_of unsigned_char = 3
number_of wchar = 4
number_of char8 = 5
number_of char16 = 6
number_of char32 = 7
number_of short = 8
number_of unsigned_short = 9
number_of int = 10
number_of unsigned_int = 11
number_of long = 12
number_of unsigned_long = 13
number_of long_long = 14
number_of unsigned_long_long = 15
number_of float = 16
number_of double = 17
number_of long_double = 18
number_of std_byte = 19

-- A scalar type as it is written: with `const`, and as a reference.
pub record ScalarType : Type 0 where
  pub scalar : Scalar
  pub is_const : Bool
  pub is_reference : Bool

abbrev pub same_bool : Bool → Bool → Bool
same_bool true b = b
same_bool false b = not b

-- std::same_as
unfoldable pub same_as : ScalarType → ScalarType → Bool
same_as t u =
    number_of t.scalar == number_of u.scalar
    && (same_bool t.is_const u.is_const && same_bool t.is_reference u.is_reference)

-- std::remove_cvref_t
unfoldable pub remove_cvref : ScalarType → ScalarType
remove_cvref t = record { scalar = t.scalar; is_const = false; is_reference = false }

unfoldable pub same_as_any : ScalarType → List ScalarType → Bool
unfolding same_as remove_cvref
same_as_any t [] = false
same_as_any t (u ∷ us) = same_as (remove_cvref t) u || same_as_any t us

abbrev pub plain : Scalar → ScalarType
plain s = record { scalar = s; is_const = false; is_reference = false }

unfoldable pub byte_t : ScalarType → Bool
unfolding same_as_any
byte_t t = same_as_any t (plain unsigned_char ∷ plain char_type ∷ plain unsigned_char ∷ [])

-- The types that std::is_integral and std::is_floating_point list.
abbrev pub integral_scalar : Scalar → Bool
integral_scalar float = false
integral_scalar double = false
integral_scalar long_double = false
integral_scalar std_byte = false
integral_scalar _ = true

abbrev pub floating_scalar : Scalar → Bool
floating_scalar float = true
floating_scalar double = true
floating_scalar long_double = true
floating_scalar _ = false

-- The signs that the platform gives to `char` and `wchar_t`.
pub record Platform : Type 0 where
  pub char_is_signed : Bool
  pub wchar_is_signed : Bool

abbrev pub is_signed : Platform → Scalar → Bool
is_signed p char_type = p.char_is_signed
is_signed p wchar = p.wchar_is_signed
is_signed p signed_char = true
is_signed p short = true
is_signed p int = true
is_signed p long = true
is_signed p long_long = true
is_signed p float = true
is_signed p double = true
is_signed p long_double = true
is_signed p _ = false

-- std::integral, std::unsigned_integral and std::is_arithmetic: true under const, false of references.
unfoldable pub std_integral : ScalarType → Bool
std_integral t = not t.is_reference && integral_scalar t.scalar

unfoldable pub std_unsigned_integral : Platform → ScalarType → Bool
unfolding std_integral
std_unsigned_integral p t = std_integral t && not (is_signed p t.scalar)

unfoldable pub is_arithmetic : ScalarType → Bool
is_arithmetic t = not t.is_reference && (integral_scalar t.scalar || floating_scalar t.scalar)

unfoldable pub integral : Platform → ScalarType → Bool
unfolding std_unsigned_integral
integral p t = std_unsigned_integral p t || std_integral t

unfoldable pub number : ScalarType → Bool
unfolding is_arithmetic
number t = is_arithmetic t

-- What can be called on an lvalue `a` of a class type; `data_contiguous` tells that a.data() is a
-- contiguous iterator, and `width` is sizeof(*a.data()).
pub record Members : Type 0 where
  pub begin : Bool
  pub end : Bool
  pub cbegin : Bool
  pub cend : Bool
  pub crbegin : Bool
  pub crend : Bool
  pub size : Bool
  pub size_convertible : Bool
  pub data_member : Bool
  pub data_contiguous : Bool
  pub width : ℕ
  pub resize : Bool

unfoldable pub container : Members → Bool
container a =
    a.begin
    && (a.end
        && (a.cbegin
            && (a.cend && (a.crbegin && (a.crend && (a.size && (a.data_member && a.resize)))))))

unfoldable pub iterable : Members → Bool
iterable a = a.begin && (a.end && (a.cbegin && (a.cend && a.size)))

unfoldable pub contiguous_byte_container : Members → Bool
contiguous_byte_container a =
    (a.data_member && a.data_contiguous) && ((a.size && a.size_convertible) && a.width == 1)
