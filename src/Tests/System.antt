-- ===== src/Tests/System.antt =====
-- Initialisation, the allocator, the console and the helpers on small parameters.
use sylvite.Common.{
  ℕ, suc, ◌*◌, ◌^◌, ◌≤◌, ◌<◌, ◌≡◌, ◌↔◌, refl, Bool, true, false, [], ◌∷◌, Bytes, none, some, ok,
  throw, leb, if◌then◌else◌, ◌>>=◌, arith, std_bad_array_new_length,
}
use mathlib.Core.List.{reverse}
use sylvite.Common.Int.{pos, negsuc}
use sylvite.Sodium.Library.{Library}
use sylvite.Sodium.Terminal.{Terminal}
use sylvite.Internal.Base.{char_type}
use sylvite.Init.Retries.{SucceedsAfter, attempts, calls, process, init_retries}
use sylvite.Internal.Base.Text.{holding}
use sylvite.Internal.Base.Iterators.{begin_to_end, rbegin_to_rend, rbegin_to_rend-begin_to_end}
use sylvite.Internal.SecureAlloc.{allocate}
use sylvite.Internal.SecureAlloc.Requests.{allocate_iff}
use sylvite.Init.{ensure_init}
use sylvite.Types.Key
use sylvite.Types.Key.Startup.{construct, body}
use sylvite.Types.Key.Startup.Ready.{construct-ok}
use sylvite.Types.SecureString.{c_str}
use sylvite.Types.SecureString.CString.{c_str-holding}
use sylvite.Concepts.{
  byte_t, number, integral, plain, std_byte, char_type, bool_type, Platform, iterable, container,
}
use sylvite.Concepts.Containers.{vector_members, container-iterable}
use sylvite.Utils.Console.{read_from_console}
use sylvite.Utils.Console.Secrets.{read_from_console-first_line}
use sylvite.Utils.Helpers.{memory_compare}
use sylvite.Utils.Helpers.Compared.{memory_compare_iff}
use sylvite.Tests.Parameters.{memory, memory_laws}

-- The state counts the attempts: the third one succeeds. Addresses are 100 and up to 1000 bytes are given.
abbrev pub lib : Library
lib = record {
  State = ℕ;
  sodium_init = λ tried. (if leb 2 tried then pos 0 else negsuc 0, suc tried);
  sodium_malloc = λ st n. (if leb n 1000 then some 100 else none, st);
  sodium_free = λ st p. st;
}

init_retries_example :
    calls lib 5 (process lib false 0)
    ≡ (process lib true 3, negsuc 0 ∷ negsuc 0 ∷ pos 0 ∷ pos 0 ∷ pos 0 ∷ [])
unfolding SucceedsAfter attempts
init_retries_example = init_retries lib 2 2 0 (refl, (refl, refl))

allocate_iff_example :
    (((allocate lib 4 7 (2 ^ 62)).1 ≡ throw std_bad_array_new_length) ↔ (2 ^ 64 ≤ 2 ^ 62 * 4))
    × (((allocate lib 4 7 (2 ^ 62)).1 ≡ ok (some 100)) ↔ (
        (2 ^ 62 * 4 < 2 ^ 64)
        × ((lib.sodium_malloc (lib.sodium_init 7).1 (2 ^ 62 * 4)).0 ≡ some 100)))
allocate_iff_example = allocate_iff lib 4 (2 ^ 62) 100 7 (omega arith) (omega arith) refl

-- The state is whether there is an echo.
abbrev pub terminal : Terminal
terminal = record {
  State = Bool;
  Settings = Bool;
  isatty = λ st. true;
  tcgetattr = λ st. some st;
  tcsetattr = λ action s st. some s;
  without_echo = λ s. false;
}

-- A terminal that a change of its settings cannot be taken back on.
abbrev stuck : Terminal
stuck = record terminal { tcsetattr = λ action s st. if s then none else some s }

-- There the echo stays off.
stays_off : (read_from_console stuck true none []).0 ≡ false
unfolding read_from_console
stays_off = refl

read_from_console-first_line_test :
    let (after, written, outcome) =
      read_from_console terminal true (some (b'?' ∷ [])) (b'a' ∷ b'b' ∷ b'\r' ∷ b'c' ∷ []) in
    (written ≡ b'?' ∷ []) × (outcome ≡ ok (holding (b'a' ∷ b'b' ∷ []), b'c' ∷ []))
read_from_console-first_line_test =
    read_from_console-first_line terminal true (some (b'?' ∷ [])) (b'a' ∷ b'b' ∷ b'\r' ∷ b'c' ∷ [])

abbrev two : ℕ
two = 2

abbrev common : Bytes
common = 1 ∷ 2 ∷ []

-- Two elements of two bytes each that differ in the second element.
memory_compare_iff_test :
    (memory_compare memory
        (record { size = 2; bytes = 1 ∷ 2 ∷ 3 ∷ 4 ∷ [] })
        (record { size = 2; bytes = 1 ∷ 2 ∷ 9 ∷ 9 ∷ [] })
      ≡ ok tt)
    ↔ ((two ≡ two) × (common ≡ common))
memory_compare_iff_test =
    memory_compare_iff memory_laws 2 2 (1 ∷ 2 ∷ 3 ∷ 4 ∷ []) (1 ∷ 2 ∷ 9 ∷ 9 ∷ []) (omega arith)
      (omega arith)

c_str-holding_test : c_str (holding (b'a' ∷ 0 ∷ b'b' ∷ [])) ≡ ok (b'a' ∷ [])
c_str-holding_test = c_str-holding (b'a' ∷ 0 ∷ b'b' ∷ [])

rbegin_to_rend-begin_to_end_test :
    rbegin_to_rend (holding (b'a' ∷ b'b' ∷ []))
    ≡ (begin_to_end (holding (b'a' ∷ b'b' ∷ [])) >>= λ bytes. ok (reverse bytes))
rbegin_to_rend-begin_to_end_test =
    rbegin_to_rend-begin_to_end char_type (holding (b'a' ∷ b'b' ∷ []))

made : (construct lib (process lib false 2) 16).1 ≡ ok (Key.new 16)
unfolding construct body allocate ensure_init
made = refl

construct-ok_example :
    ((construct lib (process lib false 2) 16).0.ok_is_set ≡ true) × (Key.new 16 ≡ Key.new 16)
construct-ok_example = construct-ok lib (process lib false 2) 16 (Key.new 16) made

container-iterable_test : iterable (vector_members 1) ≡ true
unfolding container
container-iterable_test = (container-iterable (vector_members 1) refl).0

-- std::byte is none of the byte types, a reference to `const char` is one, and `bool` is a number.
abbrev platform : Platform
platform = record { char_is_signed = true; wchar_is_signed = false }

byte_types :
    (byte_t (plain std_byte) ≡ false)
    × (byte_t (record { scalar = char_type; is_const = true; is_reference = true }) ≡ true)
    × (number (plain bool_type) ≡ true)
    × (integral platform (plain bool_type) ≡ true)
unfolding byte_t number integral
byte_types = (refl, refl, refl, refl)
