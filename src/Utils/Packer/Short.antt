-- ===== src/Utils/Packer/Short.antt =====
-- utils/packer.hpp: `unpack` checks no sizes, so a buffer shorter than its layout is read past its end.
use sylvite.Common.{
  ℕ, suc, ◌+◌, ◌<◌, ◌≤◌, ◌≡◌, refl, List, [], ◌∷◌, ◌++◌, map, append_assoc, map-append, Bytes,
  length, length-append, undefined, arith, leb, Bool-cases, inl, inr,
}
use sylvite.Common.Int.{ℤ, pos, u64_mod, to_u64}
use sylvite.Utils.Packer.{get_offset, field_at, unpack_from, unpack}

abbrev pub sum : List ℕ → ℕ
sum [] = 0
sum (n ∷ ns) = n + sum ns

pub sum-append : (a b : List ℕ) → sum (a ++ b) ≡ sum a + sum b
sum-append [] b = omega arith
sum-append (n ∷ a) b = omega (arith, sum-append a b)

pub get_offset-sum :
    (before : List ℕ) (more : List ℤ)
    → sum before < u64_mod
    → get_offset (map pos before ++ more) (length before) ≡ sum before
unfolding get_offset
get_offset-sum [] more h = refl
get_offset-sum (n ∷ before) more h = omega (arith, get_offset-sum before more (omega arith))

unpack_from_short :
    (before after : List ℕ) (sizes : List ℤ) (buffer : Bytes)
    → sizes ≡ map pos before ++ map pos after
    → sum before + sum after < u64_mod
    → sum before ≤ length buffer
    → length buffer < sum before + sum after
    → unpack_from sizes buffer (length before) (map pos after) ≡ undefined
unfolding unpack_from field_at
unpack_from_short before [] sizes buffer s h fits short = absurd (omega arith)
unpack_from_short before (n ∷ after) sizes buffer s h fits short =
    let offset : get_offset sizes (length before) ≡ sum before =
      rw s (get_offset-sum before (map pos (n ∷ after)) (omega arith)) in
    let size : to_u64 (pos n) ≡ n = omega arith in
    let next = sum-append before (n ∷ []) in
    let at_next : length (before ++ n ∷ []) ≡ suc (length before) =
      omega (arith, length-append before (n ∷ [])) in
    elim (Bool-cases (leb (sum before + n) (length buffer))) [
      | inl inside ↦
          let more : unpack_from sizes buffer (suc (length before)) (map pos after) ≡ undefined =
            rw (← at_next) (
              unpack_from_short (before ++ n ∷ []) after sizes buffer
                (rw (map-append pos before (n ∷ []), append_assoc) s) (omega (arith, next))
                (ground (arith, next)) (omega (arith, next))) in
          rw (offset, size, inside, more)
      | inr outside ↦ rw (offset, size, outside)
    ]

-- For any layout of fixed sizes that add up to less than 2 ^ 64, unpacking a buffer with fewer
-- bytes than their sum is undefined behaviour, whatever its contents.
pub unpack_short :
    (sizes : List ℕ) (buffer : Bytes)
    → sum sizes < u64_mod
    → length buffer < sum sizes
    → unpack (map pos sizes) buffer ≡ undefined
unfolding unpack
unpack_short sizes buffer h short =
    unpack_from_short [] sizes (map pos sizes) buffer refl (omega arith) (omega arith) (omega arith)
