-- ===== src/Internal/Base/Moved.antt =====
-- internal/base.hpp: the moves that NonCopyable allows, and what they leave behind. A vector that was
-- moved from is empty, so a text loses its sentinel.
use sylvite.Common.{
  ℕ, ◌-◌, ◌^◌, ◌<◌, ◌≡◌, refl, true, false, [], ◌∷◌, Bytes, leb, ok, throw, undefined,
  out_of_range_error, empty_string_error, arith,
}
use sylvite.Internal.Base.{
  Element, char_type, byte_type, Base, size, empty, at, span_data, back, push_back, pop_back, wipe,
  to_bool,
}
use sylvite.Internal.Base.Iterators.{begin_to_end}

-- Base(vector&&)
unfoldable pub of_vector : (T : Element) → Bytes → Base T
of_vector T v = record { vec = v }

module _ {T : Element} where
  -- The move constructor: the new object, and the one that was moved from.
  unfoldable pub move : Base T → Base T × Base T
  unfolding of_vector
  move b = (of_vector T b.vec, record { vec = [] })

  -- The move assignment of `b` to `a`: both after it.
  unfoldable pub move_assign : Base T → Base T → Base T × Base T
  unfolding move
  move_assign a b = move b

-- A byte buffer that was moved from is a sound empty buffer: the new object has the bytes, the old one
-- has size 0, `at` and `back` throw, its span and its iterators are empty, and `push_back` makes a
-- buffer of one byte.
pub move-bytes :
    (b : Base byte_type) (i c : ℕ)
    → let (taken, left) = move b in
      (taken ≡ b)
      × (size left ≡ 0)
      × (empty left ≡ true)
      × (at left i ≡ throw out_of_range_error)
      × (back left ≡ throw empty_string_error)
      × (span_data left ≡ ok [])
      × (begin_to_end left ≡ ok [])
      × (push_back left c ≡ ok (record { vec = c ∷ [] }))
unfolding move size empty at back span_data begin_to_end push_back of_vector
move-bytes b i c = (refl, refl, refl, rw (leb_zero i), refl, refl, refl, refl)
  where
    leb_zero : (i : ℕ) → leb 0 i ≡ true
    leb_zero i = ground arith

-- A String that was moved from is none: its size wraps to 2 ^ 64 - 1 and it is not empty, by which `at`
-- lets every smaller index through to read behind the end; `back`, `push_back`, its span and its
-- iterators are undefined, and neither `pop_back` nor `wipe` repairs it.
pub move-text :
    (b : Base char_type) (i c : ℕ)
    → i < 2 ^ 64 - 1
    → let (taken, left) = move b in
      (taken ≡ b)
      × (size left ≡ 2 ^ 64 - 1)
      × (to_bool left ≡ true)
      × (at left i ≡ undefined)
      × (back left ≡ undefined)
      × (span_data left ≡ undefined)
      × (begin_to_end left ≡ undefined)
      × (push_back left c ≡ undefined)
      × (pop_back left ≡ ok left)
      × (wipe left ≡ left)
unfolding move size empty at back span_data begin_to_end push_back pop_back wipe to_bool of_vector
move-text b i c h =
    let within : leb 18446744073709551615 i ≡ false = ground arith in
    (refl, refl, refl, rw within refl, refl, refl, refl, refl, refl, refl)
