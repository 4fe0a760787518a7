-- ===== src/Utils/Packer.antt =====
-- utils/packer.hpp. A layout is the list of template arguments, -1 for "the rest".
pub mod RoundTrip
pub mod Short
pub mod Split
use sylvite.Common.{
  ℕ, suc, ◌+◌, ◌%◌, ◌<◌, Bool, true, false, ◌&&◌, List, [], ◌∷◌, ◌++◌, Bytes, length, drop, take,
  leb, zero, if◌then◌else◌, Outcome, ok, undefined, ◌>>=◌, read_at,
}
use sylvite.Common.Int.{ℤ, pos, negsuc, u64_mod, to_u64}

-- Each container is inserted at the end of the result.
unfoldable pub pack : List Bytes → Bytes
pack [] = []
pack (bytes ∷ rest) = bytes ++ pack rest

-- The static assertion: -1 stands nowhere but in the last place.
unfoldable pub rest_is_last : List ℤ → Bool
rest_is_last [] = true
rest_is_last (size ∷ []) = true
rest_is_last (pos n ∷ t ∷ ts) = rest_is_last (t ∷ ts)
rest_is_last (negsuc zero ∷ t ∷ ts) = false
rest_is_last (negsuc (suc n) ∷ t ∷ ts) = rest_is_last (t ∷ ts)

-- `get_offset`: the sum of the first sizes, in `std::size_t`.
unfoldable pub get_offset : List ℤ → ℕ → ℕ
get_offset sizes zero = 0
get_offset [] (suc i) = 0
get_offset (size ∷ sizes) (suc i) = (to_u64 size + get_offset sizes i) % u64_mod

-- `buffer_.subspan(start)`, undefined where `start` lies behind the end.
unfoldable pub subspan : ℕ → Bytes → Outcome Bytes
subspan start buffer = if leb start (length buffer) then ok (drop start buffer) else undefined

-- The field for one index; a size other than -1 is cast to `std::size_t`.
unfoldable pub field_at : ℕ → ℤ → Bytes → Outcome Bytes
unfolding subspan
field_at start (pos n) buffer = read_at start (to_u64 (pos n)) buffer
field_at start (negsuc zero) buffer = subspan start buffer
field_at start (negsuc (suc n)) buffer = read_at start (to_u64 (negsuc (suc n))) buffer

-- `unpack_impl` from the index `i` on, whose sizes are the last argument.
unfoldable pub unpack_from : List ℤ → Bytes → ℕ → List ℤ → Outcome (List Bytes)
unpack_from sizes buffer i [] = ok []
unpack_from sizes buffer i (size ∷ rest) = do
  bytes ← field_at (get_offset sizes i) size buffer
  more ← unpack_from sizes buffer (suc i) rest
  ok (bytes ∷ more)

unfoldable pub unpack : List ℤ → Bytes → Outcome (List Bytes)
unfolding unpack_from
unpack sizes buffer = unpack_from sizes buffer 0 sizes
