-- ===== src/Internal/Base/Iterators.antt =====
-- internal/base.hpp: what the iterators of a buffer go over, forwards and backwards.
use sylvite.Common.{
  ℕ, ◌-◌, ◌≡◌, [], ◌∷◌, ◌++◌, Bytes, length, take, drop, leb, if◌then◌else◌, inl, inr, Outcome, ok,
  undefined, ◌>>=◌, length-append, arith, take-append, take-length, true,
}
use mathlib.Core.List.{reverse, reverse-append}
use sylvite.Internal.Base.{Element, char_type, byte_type, sentinel, Base}
use sylvite.Internal.Base.Text.{holding, snoc_cases}

module _ {T : Element} where
  -- From begin() to end(), and from cbegin() to cend(): `end` is the vector's less the sentinel.
  unfoldable pub begin_to_end : Base T → Outcome Bytes
  begin_to_end b =
      if leb (sentinel T) (length b.vec)
      then ok (take (length b.vec - sentinel T) b.vec)
      else undefined

  -- From rbegin() to rend(), and from crbegin() to crend(): `rbegin` skips the sentinel.
  unfoldable pub rbegin_to_rend : Base T → Outcome Bytes
  rbegin_to_rend b =
      if leb (sentinel T) (length b.vec) then ok (drop (sentinel T) (reverse b.vec)) else undefined

without_last :
    (start : Bytes) (c : ℕ) → take (length (start ++ c ∷ []) - 1) (start ++ c ∷ []) ≡ start
without_last start c =
    let size : length (start ++ c ∷ []) - 1 ≡ length start =
      omega (arith, length-append start (c ∷ [])) in
    rw size (take-append start (c ∷ []))

-- On every buffer, the reverse iterators go over what the iterators go over, backwards; on a vector with
-- no room for its sentinel, neither is defined.
pub rbegin_to_rend-begin_to_end :
    (T : Element) (b : Base T) → rbegin_to_rend b ≡ (begin_to_end b >>= λ bytes. ok (reverse bytes))
unfolding rbegin_to_rend begin_to_end
rbegin_to_rend-begin_to_end char_type b = elim (snoc_cases b.vec) [
  | inl e ↦ simp e
  | inr (start, c, e) ↦
      let some_room : leb 1 (length (start ++ c ∷ [])) ≡ true =
        ground (arith, length-append start (c ∷ [])) in
      simp (e, some_room, reverse-append start (c ∷ []), without_last start c)
]
rbegin_to_rend-begin_to_end byte_type b =
    let whole : take (length b.vec - 0) b.vec ≡ b.vec =
      take-length (length b.vec - 0) b.vec (omega arith) in
    let any_room : leb 0 (length b.vec) ≡ true = ground arith in simp (whole, any_room)

-- The iterators of a text go over its characters, without the terminator.
pub begin_to_end-holding : (text : Bytes) → begin_to_end (holding text) ≡ ok text
unfolding begin_to_end
begin_to_end-holding text =
    let some_room : leb 1 (length (text ++ 0 ∷ [])) ≡ true =
      ground (arith, length-append text (0 ∷ [])) in
    rw (some_room, without_last text 0)
