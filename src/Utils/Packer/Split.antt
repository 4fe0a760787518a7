-- ===== src/Utils/Packer/Split.antt =====
-- utils/packer.hpp: what `unpack` returns for every buffer, by a layout of fixed sizes.
use sylvite.Common.{
  ℕ, suc, ◌+◌, ◌<◌, ◌≤◌, ◌≡◌, refl, List, [], ◌∷◌, ◌++◌, map, append_assoc, map-append, Bytes, take,
  drop, drop-drop, length, length-append, ok, undefined, arith, leb, Bool-cases, inl, inr,
  if◌then◌else◌, read_at,
}
use sylvite.Common.Int.{ℤ, pos, u64_mod, to_u64}
use sylvite.Utils.Packer.{get_offset, field_at, unpack_from, unpack}
use sylvite.Utils.Packer.Short.{sum, sum-append, get_offset-sum, unpack_short}

-- The specification: one field after the other.
abbrev pub split : List ℕ → Bytes → List Bytes
split [] buffer = []
split (n ∷ sizes) buffer = take n buffer ∷ split sizes (drop n buffer)

read_at-field :
    (off n : ℕ) (buffer : Bytes)
    → off + n ≤ length buffer
    → read_at off n buffer ≡ ok (take n (drop off buffer))
read_at-field off n buffer h = ground arith

unpack_from-split :
    (before after : List ℕ) (sizes : List ℤ) (buffer : Bytes)
    → sizes ≡ map pos before ++ map pos after
    → sum before + sum after < u64_mod
    → sum before + sum after ≤ length buffer
    → unpack_from sizes buffer (length before) (map pos after)
      ≡ ok (split after (drop (sum before) buffer))
unfolding unpack_from field_at
unpack_from-split before [] sizes buffer s h fits = refl
unpack_from-split before (n ∷ after) sizes buffer s h fits =
    let offset : get_offset sizes (length before) ≡ sum before =
      rw s (get_offset-sum before (map pos (n ∷ after)) (omega arith)) in
    let size : to_u64 (pos n) ≡ n = omega arith in
    let next = sum-append before (n ∷ []) in
    let at_next : length (before ++ n ∷ []) ≡ suc (length before) =
      omega (arith, length-append before (n ∷ [])) in
    let end : sum (before ++ n ∷ []) ≡ sum before + n = omega (arith, next) in
    let more =
      unpack_from-split (before ++ n ∷ []) after sizes buffer
        (rw (map-append pos before (n ∷ []), append_assoc) s) (omega (arith, next))
        (omega (arith, next)) in
    rw (
      offset,
      size,
      read_at-field (sum before) n buffer (omega arith),
      ← at_next,
      more,
      end,
      drop-drop (sum before) n buffer,
    )

-- By a layout of fixed sizes that add up to less than 2 ^ 64, a buffer that has as many bytes is split
-- into fields of those sizes, one after the other, and bytes that are left over are dropped; a shorter
-- buffer is undefined behaviour, whatever its contents.
pub unpack-split :
    (sizes : List ℕ) (buffer : Bytes)
    → sum sizes < u64_mod
    → unpack (map pos sizes) buffer
      ≡ (if leb (sum sizes) (length buffer) then ok (split sizes buffer) else undefined)
unfolding unpack
unpack-split sizes buffer h = elim (Bool-cases (leb (sum sizes) (length buffer))) [
  | inl enough ↦
      let fits : sum sizes ≤ length buffer = ground arith in
      rw enough (unpack_from-split [] sizes (map pos sizes) buffer refl (omega arith) (omega arith))
  | inr short ↦
      let less : length buffer < sum sizes = ground arith in
      rw short (unpack_short sizes buffer h less)
]
