-- ===== src/Utils/Packer/RoundTrip.antt =====
-- utils/packer.hpp: a buffer that `pack` has built is taken apart by `unpack`, and a buffer that is
-- shorter than its layout is read past its end.
use sylvite.Common.{
  suc, ◌+◌, ◌<◌, ◌≡◌, refl, ap, sym, ◌∙◌, List, [], ◌∷◌, ◌++◌, map, append-nil, append_assoc,
  map-append, Bytes, length, length-append, ok, arith, read_at-append, drop-append, le→leb, ◌≤◌,
}
use sylvite.Common.Int.{ℤ, pos, negsuc, u64_mod}
use sylvite.Utils.Packer.{pack, get_offset, field_at, unpack_from, unpack, subspan}

-- The layout that names the size of each part.
abbrev pub sizes_of : List Bytes → List ℤ
sizes_of = map λ part. pos (length part)

pack-append : (a b : List Bytes) → pack (a ++ b) ≡ pack a ++ pack b
unfolding pack
pack-append [] b = refl
pack-append (x ∷ a) b = rw (pack-append a b) (sym (append_assoc x (pack a) (pack b)))

length-snoc : (a : List Bytes) (x : Bytes) → length (a ++ x ∷ []) ≡ suc (length a)
length-snoc a x = omega (arith, length-append a (x ∷ []))

-- The offset behind the parts `before` is their total size.
get_offset-sizes_of :
    (before : List Bytes) (more : List ℤ)
    → length (pack before) < u64_mod
    → get_offset (sizes_of before ++ more) (length before) ≡ length (pack before)
unfolding get_offset pack
get_offset-sizes_of [] more h = refl
get_offset-sizes_of (x ∷ before) more h =
    let total : length (x ++ pack before) ≡ length x + length (pack before) =
      length-append x (pack before) in
    omega (arith, total, get_offset-sizes_of before more (omega (arith, total)))

-- A field of a packed buffer is found at the total size of the parts before it.
field_at-pack :
    (before : List Bytes) (x tail : Bytes) (more : List ℤ)
    → length (pack before ++ x) < u64_mod
    → field_at
        (get_offset (sizes_of before ++ more) (length before))
        (pos (length x))
        (pack before ++ (x ++ tail))
      ≡ ok x
unfolding field_at
field_at-pack before x tail more h =
    let total : length (pack before ++ x) ≡ length (pack before) + length x =
      length-append (pack before) x in
    read_at-append _ _ (pack before) x tail
      (sym (get_offset-sizes_of before more (omega (arith, total)))) (omega (arith, total))

-- The parts `after` are read behind the parts `before`, whatever `ends` the fields behind them give.
unpack_from-pack :
    (before after : List Bytes) (tail : Bytes) (more : List ℤ) (sizes : List ℤ) (buffer : Bytes)
    (ends : List Bytes)
    → sizes ≡ sizes_of before ++ (sizes_of after ++ more)
    → buffer ≡ pack before ++ (pack after ++ tail)
    → length (pack before ++ pack after) < u64_mod
    → unpack_from sizes buffer (length (before ++ after)) more ≡ ok ends
    → unpack_from sizes buffer (length before) (sizes_of after ++ more) ≡ ok (after ++ ends)
unfolding unpack_from pack
unpack_from-pack before [] tail more sizes buffer ends s b h e = rw append-nil at e
unpack_from-pack before (x ∷ after) tail more sizes buffer ends s b h e =
    let lengths : length (pack before ++ (x ++ pack after))
        ≡ length (pack before ++ x) + length (pack after) =
      omega (
        arith,
        length-append (pack before) (x ++ pack after),
        length-append x (pack after),
        length-append (pack before) x,
      ) in
    let packed : pack (before ++ x ∷ []) ≡ pack before ++ x =
      pack-append before (x ∷ []) ∙ ap (◌++◌ (pack before)) (append-nil x) in
    let first : field_at (get_offset sizes (length before)) (pos (length x)) buffer ≡ ok x =
      rw (s, b, append_assoc x (pack after) tail)
        (field_at-pack before x (pack after ++ tail) _ (omega (arith, lengths))) in
    let more_of : unpack_from sizes buffer (length (before ++ x ∷ [])) (sizes_of after ++ more)
        ≡ ok (after ++ ends) =
      unpack_from-pack (before ++ x ∷ []) after tail more sizes buffer ends
        (rw (map-append _ before (x ∷ []), append_assoc) s)
        (rw (
          packed,
          append_assoc (pack before) x (pack after ++ tail),
          b,
          append_assoc x (pack after) tail,
        ))
        (rw packed (omega (arith, lengths, length-append (pack before ++ x) (pack after))))
        (rw append_assoc e) in
    rw first (rw (← length-snoc before x, more_of))

-- Parts of less than 2 ^ 64 bytes together, packed and then unpacked by their own sizes, come back.
pub unpack-pack :
    (parts : List Bytes)
    → length (pack parts) < u64_mod
    → unpack (sizes_of parts) (pack parts) ≡ ok parts
unfolding unpack unpack_from pack
unpack-pack parts h =
    let run =
      unpack_from-pack [] parts [] [] (sizes_of parts) (pack parts) []
        (sym (append-nil (sizes_of parts))) (sym (append-nil (pack parts))) h refl in
    rw (append-nil, append-nil parts) at run

-- Parts of less than 2 ^ 64 bytes together and a last part of any size, packed and then unpacked by
-- a layout that names the sizes of the parts and ends in -1, come back.
pub unpack-pack_rest :
    (parts : List Bytes) (last : Bytes)
    → length (pack parts) < u64_mod
    → unpack (sizes_of parts ++ negsuc 0 ∷ []) (pack (parts ++ last ∷ [])) ≡ ok (parts ++ last ∷ [])
unfolding unpack unpack_from field_at subspan pack
unpack-pack_rest parts last h =
    let packed : pack (parts ++ last ∷ []) ≡ pack parts ++ (last ++ []) =
      pack-append parts (last ∷ []) ∙ unfold pack in refl in
    let offset = get_offset-sizes_of parts (negsuc 0 ∷ []) h in
    let room : length (pack parts) ≤ length (pack parts ++ (last ++ [])) =
      omega (arith, length-append (pack parts) (last ++ [])) in
    unpack_from-pack [] parts (last ++ []) (negsuc 0 ∷ []) _ _ (last ∷ []) refl packed h
      (rw (packed, offset, le→leb _ _ room, drop-append, append-nil))
