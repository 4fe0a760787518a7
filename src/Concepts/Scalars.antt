-- ===== src/Concepts/Scalars.antt =====
-- concepts.hpp: which scalar types the concepts accept.
use sylvite.Common.{◌≡◌, ◌⊎◌, ◌↔◌, refl, ap, arith, true, false, inl, inr}
use sylvite.Concepts.{
  Scalar, char_type, unsigned_char, ScalarType, Platform, byte_t, same_as_any, same_as,
  remove_cvref, std_integral, std_unsigned_integral, is_arithmetic, integral, number,
  integral_scalar, number_of, floating_scalar,
}

number_of-char : (s : Scalar) → number_of s ≡ 1 → s ≡ char_type
number_of-char char_type e = refl
number_of-char _ e = absurd (omega (arith, e))

number_of-byte : (s : Scalar) → number_of s ≡ 3 → s ≡ unsigned_char
number_of-byte unsigned_char e = refl
number_of-byte _ e = absurd (omega (arith, e))

byte_t_numbers :
    (t : ScalarType) → (byte_t t ≡ true) ↔ ((number_of t.scalar ≡ 1) ⊎ (number_of t.scalar ≡ 3))
unfolding byte_t same_as_any same_as remove_cvref
byte_t_numbers t = ground arith

-- `byte_t` accepts `char` and `unsigned char`, const or not and as references or not, and no other type.
pub byte_t_iff :
    (t : ScalarType) → (byte_t t ≡ true) ↔ ((t.scalar ≡ char_type) ⊎ (t.scalar ≡ unsigned_char))
byte_t_iff t = (
  λ e. elim ((byte_t_numbers t).0 e) [
    | inl c ↦ inl (number_of-char t.scalar c)
    | inr b ↦ inr (number_of-byte t.scalar b)
  ],
  λ h. elim h [
    | inl c ↦ (byte_t_numbers t).1 (inl (ap number_of c))
    | inr b ↦ (byte_t_numbers t).1 (inr (ap number_of b))
  ],
)

number_iff :
    (p : Platform) (t : ScalarType)
    → (number t ≡ true)
      ↔ ((integral p t ≡ true) ⊎ ((t.is_reference ≡ false) × (floating_scalar t.scalar ≡ true)))
unfolding number is_arithmetic integral std_integral std_unsigned_integral
number_iff p t = ground arith

integral_char :
    (p : Platform) (t : ScalarType)
    → t.is_reference ≡ false
    → integral_scalar t.scalar ≡ true
    → integral p t ≡ true
unfolding integral std_integral std_unsigned_integral
integral_char p t value e = ground arith

integral_iff :
    (p : Platform) (t : ScalarType)
    → (integral p t ≡ true) ↔ ((t.is_reference ≡ false) × (integral_scalar t.scalar ≡ true))
unfolding integral std_integral std_unsigned_integral
integral_iff p t = ground arith

-- Whatever the platform's signs: `byte_t` accepts `char` and `unsigned char`, const or not and as
-- references or not, and no other type; `Number` accepts what `Integral` does and, where it is no
-- reference, a floating type; and what `byte_t` accepts is `Integral` if it is no reference.
pub byte_t-integral-number :
    (p : Platform) (t : ScalarType)
    → ((byte_t t ≡ true) ↔ ((t.scalar ≡ char_type) ⊎ (t.scalar ≡ unsigned_char)))
      × ((number t ≡ true) ↔ (
          (integral p t ≡ true) ⊎ ((t.is_reference ≡ false) × (floating_scalar t.scalar ≡ true))))
      × (((byte_t t ≡ true) × (integral p t ≡ true))
          ↔ ((byte_t t ≡ true) × (t.is_reference ≡ false)))
byte_t-integral-number p t = (
  byte_t_iff t,
  number_iff p t,
  (
    λ h. (h.0, ((integral_iff p t).0 h.1).0),
    λ h. (
      h.0,
      (integral_iff p t).1 (
        h.1,
        elim ((byte_t_iff t).0 h.0) [ inl c ↦ ap integral_scalar c | inr b ↦ ap integral_scalar b ],
      ),
    ),
  ),
)
