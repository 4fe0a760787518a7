-- ===== src/Internal/Base.antt =====
-- internal/base.hpp: `Base<T, Alloc>` with its vector, whose capacity is left out.
pub mod Text
pub mod Equality
pub mod Buffers
pub mod Iterators
pub mod Moved
use sylvite.Common.{
  ℕ, zero, suc, ◌+◌, ◌-◌, ◌^◌, Bool, true, false, not, ◌&&◌, [], ◌∷◌, ◌++◌, Bytes, length, take,
  get_elem?, replicate, leb, ltb, ◌==◌, if◌then◌else◌, Option, none, some, Outcome, ok, throw,
  undefined, ◌>>=◌, ◌>>◌, throw_if, out_of_range_error, empty_string_error,
}
use sylvite.Sodium.Memory.{Memory}

-- The template parameter T: `char`, or a byte type.
pub data Element : Type 0 where
  char_type byte_type : Element

abbrev pub sentinel : Element → ℕ
sentinel char_type = 1
sentinel byte_type = 0

pub record Base (T : Element) : Type 0 where
  pub vec : Bytes

-- `a - b` in `std::size_t`, for b at most 1.
abbrev pub sub_size : ℕ → ℕ → ℕ
sub_size a b = if leb b a then a - b else a + 2 ^ 64 - b

abbrev pub set_back : Bytes → ℕ → Outcome Bytes
set_back [] c = undefined
set_back (b ∷ []) c = ok (c ∷ [])
set_back (b ∷ d ∷ rest) c = set_back (d ∷ rest) c >>= λ more. ok (b ∷ more)

abbrev pub pop_vec : Bytes → Outcome Bytes
pop_vec [] = undefined
pop_vec (b ∷ []) = ok []
pop_vec (b ∷ d ∷ rest) = pop_vec (d ∷ rest) >>= λ more. ok (b ∷ more)

-- `vec_[i]`, undefined behind the end.
abbrev pub subscript : Bytes → ℕ → Outcome ℕ
subscript bytes i = elim (get_elem? bytes i) [ none ↦ undefined | some b ↦ ok b ]

-- The constructor from a size: value-initialised elements, and a sentinel behind them for `char`.
unfoldable pub of_size : (T : Element) → ℕ → Base T
of_size T n = record { vec = replicate (n + sentinel T) 0 }

-- The constructor from a span copies it; no sentinel is added.
unfoldable pub of_span : (T : Element) → Bytes → Base T
of_span T view = record { vec = view }

module _ {T : Element} where
  unfoldable pub size : Base T → ℕ
  size b = sub_size (length b.vec) (sentinel T)

  unfoldable pub empty : Base T → Bool
  unfolding size
  empty b = size b == 0

  unfoldable pub at : Base T → ℕ → Outcome ℕ
  unfolding size
  at b i = do throw_if (leb (size b) i) out_of_range_error; subscript b.vec i

  unfoldable pub span_data : Base T → Outcome Bytes
  unfolding size
  span_data b = if leb (size b) (length b.vec) then ok (take (size b) b.vec) else undefined

  -- back(): the last element before the sentinel.
  unfoldable pub back : Base T → Outcome ℕ
  unfolding size
  back b = do
    throw_if (size b == 0) empty_string_error
    subscript b.vec (length b.vec - 1 - sentinel T)

push_back_vec : Element → Bytes → ℕ → Outcome Bytes
push_back_vec char_type bytes c = set_back bytes c >>= λ more. ok (more ++ 0 ∷ [])
push_back_vec byte_type bytes c = ok (bytes ++ c ∷ [])

pop_back_vec : Element → Bytes → Outcome Bytes
pop_back_vec char_type bytes =
    if ltb 1 (length bytes) then pop_vec bytes >>= (λ more. set_back more 0) else ok bytes
pop_back_vec byte_type bytes = pop_vec bytes

-- After the zeroing, a text is cut to its sentinel; a byte buffer keeps its size.
wipe_vec : Element → Bytes → Bytes
wipe_vec T [] = []
wipe_vec char_type (b ∷ rest) = 0 ∷ []
wipe_vec byte_type (b ∷ rest) = replicate (length (b ∷ rest)) 0

module _ {T : Element} where
  unfoldable pub push_back : Base T → ℕ → Outcome (Base T)
  unfolding push_back_vec
  push_back b c = push_back_vec T b.vec c >>= λ bytes. ok (record { vec = bytes })

  unfoldable pub pop_back : Base T → Outcome (Base T)
  unfolding pop_back_vec
  pop_back b = pop_back_vec T b.vec >>= λ bytes. ok (record { vec = bytes })

  unfoldable pub wipe : Base T → Base T
  unfolding wipe_vec
  wipe b = record { vec = wipe_vec T b.vec }

  -- operator==
  unfoldable pub equals : Memory → Base T → Base T → Bool
  equals memory a b =
      if not (length a.vec == length b.vec) then false else memory.sodium_memcmp b.vec a.vec

  -- operator!=
  unfoldable pub not_equals : Memory → Base T → Base T → Bool
  unfolding equals
  not_equals memory a b = not (equals memory a b)

  -- operator bool
  unfoldable pub to_bool : Base T → Bool
  unfolding empty
  to_bool b = not (empty b)
