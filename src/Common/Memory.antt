-- ===== src/Common/Memory.antt =====
-- Byte buffers behind pointers: a read or a write of some bytes at an offset.
use Prim.Native.Nat.{ℕ, ◌+◌, ◌-◌, ◌≤◌, ◌<◌}
use mathlib.Core.Path.{◌≡◌, sym, ap, ◌∙◌}
use mathlib.Core.List.{[], List, ◌++◌, append_assoc, append-nil}
use native.Mathlib.Omega.{arith}
use sylvite.Common.Tests.{leb, if◌then◌else◌, le→leb}
use sylvite.Common.Lists.{
  All, replicate, replicate-+, length-replicate, length, take, drop, length-append, length-take,
  length-drop, take-append, take-length, drop-length, drop-append, drop-drop,
}
use sylvite.Common.Result.{Outcome, ok, undefined}

abbrev pub Bytes : Type 0
Bytes = List ℕ

-- A value-initialised vector.
abbrev pub zeros : ℕ → Bytes
zeros n = replicate n 0

-- Every element is a `std::uint8_t`.
abbrev pub AreBytes : Bytes → Type 0
AreBytes = All (λ b. b < 256)

-- `n` bytes behind the pointer `buf.data() + off`.
abbrev pub read_at : ℕ → ℕ → Bytes → Outcome Bytes
read_at off n buf = if leb (off + n) (length buf) then ok (take n (drop off buf)) else undefined

-- A write of `bytes` behind the pointer `buf.data() + off`.
abbrev pub write_at : ℕ → Bytes → Bytes → Outcome Bytes
write_at off bytes buf =
    if leb (off + length bytes) (length buf)
    then ok (take off buf ++ (bytes ++ drop (off + length bytes) buf))
    else undefined

pub read_at-append :
    (off n : ℕ) (before bytes after : Bytes)
    → length before ≡ off
    → length bytes ≡ n
    → read_at off n (before ++ (bytes ++ after)) ≡ ok bytes
read_at-append off n before bytes after p q =
    let room : length before + length bytes ≤ length (before ++ (bytes ++ after)) =
      omega (arith, length-append before (bytes ++ after), length-append bytes after) in
    rw (← p, ← q, le→leb _ _ room, drop-append before (bytes ++ after), take-append bytes after)

pub write_at-append :
    (off : ℕ) (before old after bytes : Bytes)
    → length before ≡ off
    → length old ≡ length bytes
    → write_at off bytes (before ++ (old ++ after)) ≡ ok (before ++ (bytes ++ after))
write_at-append off before old after bytes p q =
    let room : length before + length bytes ≤ length (before ++ (old ++ after)) =
      omega (arith, length-append before (old ++ after), length-append old after) in
    rw (
      ← p,
      le→leb _ _ room,
      take-append before (old ++ after),
      drop-drop (length before) (length bytes) (before ++ (old ++ after)),
      drop-append before (old ++ after),
      ← q,
      drop-append old after,
    )

-- A read at the start of a buffer that is long enough gives its first bytes.
pub read_at_start : (n : ℕ) (buf : Bytes) → n ≤ length buf → read_at 0 n buf ≡ ok (take n buf)
read_at_start n buf h = ground arith

pub read_at_whole : (n : ℕ) (buf : Bytes) → length buf ≡ n → read_at 0 n buf ≡ ok buf
read_at_whole n buf h = rw (read_at_start n buf (omega arith), take-length n buf h)

pub read_at_short : (off n : ℕ) (buf : Bytes) → length buf < off + n → read_at off n buf ≡ undefined
read_at_short off n buf h = ground arith

pub read_at_rest :
    (off : ℕ) (buf : Bytes)
    → off ≤ length buf
    → read_at off (length buf - off) buf ≡ ok (drop off buf)
read_at_rest off buf h =
    let room : off + (length buf - off) ≤ length buf = omega arith in
    rw (le→leb _ _ room, take-length _ _ (length-drop off buf))

-- Writing into a buffer of zeros from the front: `bytes` lands behind what is `done`.
pub write_at_next :
    (off n : ℕ) (done bytes : Bytes)
    → length done ≡ off
    → length bytes ≤ n
    → write_at off bytes (done ++ zeros n) ≡ ok ((done ++ bytes) ++ zeros (n - length bytes))
write_at_next off n done bytes p q =
    let size : ℕ = length bytes in
    let split : n ≡ size + (n - size) = omega arith in
    let halves : zeros n ≡ zeros size ++ zeros (n - size) =
      ap zeros split ∙ replicate-+ size (n - size) 0 in
    rw halves (
      write_at-append off done (zeros size) (zeros (n - size)) bytes p (length-replicate size 0)
      ∙ ap ok (sym (append_assoc done bytes (zeros (n - size)))))

-- A write that fills what is left.
pub write_at_end :
    (off n : ℕ) (done bytes : Bytes)
    → length done ≡ off
    → length bytes ≡ n
    → write_at off bytes (done ++ zeros n) ≡ ok (done ++ bytes)
write_at_end off n done bytes p q =
    let none_left : n - length bytes ≡ 0 = omega arith in
    write_at_next off n done bytes p (omega arith)
    ∙ ap ok (ap (λ (k : ℕ). (done ++ bytes) ++ zeros k) none_left ∙ append-nil (done ++ bytes))

-- A write of as many bytes as the buffer has replaces its contents.
pub write_at_whole :
    (bytes buf : Bytes) → length bytes ≡ length buf → write_at 0 bytes buf ≡ ok bytes
write_at_whole bytes buf e =
    let room : 0 + length bytes ≤ length buf = omega arith in
    let behind : drop (0 + length bytes) buf ≡ [] =
      drop-length (0 + length bytes) buf (omega arith) in
    rw (le→leb _ _ room, behind, append-nil)

-- `vector::resize`: cut, or filled up with value-initialised elements.
abbrev pub resized : ℕ → Bytes → Bytes
resized n buf = take n buf ++ zeros (n - length buf)

pub length-resized : (n : ℕ) (buf : Bytes) → length (resized n buf) ≡ n
length-resized n buf = omega (
  arith,
  length-append (take n buf) (zeros (n - length buf)),
  length-take n buf,
  length-replicate {A = ℕ} (n - length buf) 0,
)

-- A write that fills a buffer resized for it leaves what was written.
pub write_at-resized :
    (n : ℕ) (bytes buf : Bytes) → length bytes ≡ n → write_at 0 bytes (resized n buf) ≡ ok bytes
write_at-resized n bytes buf h =
    write_at_whole bytes (resized n buf) (h ∙ sym (length-resized n buf))
