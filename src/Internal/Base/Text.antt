-- ===== src/Internal/Base/Text.antt =====
-- internal/base.hpp with T = char: a text is its characters and a terminator, and each method does to
-- the characters what its name says.
use sylvite.Common.{
  ℕ, zero, suc, leb, lt→ltb, leb→le, ◌==◌, false, append_assoc, ◌⊎◌, Bool-cases, inl, inr, ◌-◌, ◌≤◌,
  ◌<◌, ◌≡◌, refl, ap, sym, ◌∙◌, [], ◌∷◌, ◌++◌, Bytes, length, get_elem?, length-append, take-append,
  true, none, some, Outcome, ok, throw, arith, out_of_range_error, empty_string_error,
}
use sylvite.Internal.Base.{
  Base, char_type, size, span_data, at, back, push_back, pop_back, wipe, set_back, pop_vec,
  subscript,
}

-- The buffer holds these characters and the terminator.
abbrev pub Holds : Bytes → Base char_type → Type 0
Holds text b = b.vec ≡ text ++ 0 ∷ []

abbrev pub holding : Bytes → Base char_type
holding text = record { vec = text ++ 0 ∷ [] }

pub size-holding : (text : Bytes) → size (holding text) ≡ length text
unfolding size
size-holding text = ground (arith, length-append text (0 ∷ []))

pub span_data-holding : (text : Bytes) → span_data (holding text) ≡ ok text
unfolding span_data
span_data-holding text =
    let fits : leb (length text) (length (text ++ 0 ∷ [])) ≡ true =
      ground (arith, length-append text (0 ∷ [])) in
    rw (size-holding text, fits, take-append text (0 ∷ [])) refl

set_back-append : (text : Bytes) (b c : ℕ) → set_back (text ++ b ∷ []) c ≡ ok (text ++ c ∷ [])
set_back-append [] b c = refl
set_back-append (x ∷ []) b c = refl
set_back-append (x ∷ y ∷ text) b c = rw (set_back-append (y ∷ text) b c)

pop_vec-append : (text : Bytes) (b : ℕ) → pop_vec (text ++ b ∷ []) ≡ ok text
pop_vec-append [] b = refl
pop_vec-append (x ∷ []) b = refl
pop_vec-append (x ∷ y ∷ text) b = rw (pop_vec-append (y ∷ text) b)

pub push_back-holding :
    (text : Bytes) (c : ℕ) → push_back (holding text) c ≡ ok (holding (text ++ c ∷ []))
unfolding push_back
push_back-holding text c = rw (set_back-append text 0 c)

pub pop_back-holding :
    (text : Bytes) (c : ℕ) → pop_back (holding (text ++ c ∷ [])) ≡ ok (holding text)
unfolding pop_back
pop_back-holding text c =
    let long : 1 < length (text ++ c ∷ [] ++ 0 ∷ []) =
      omega (arith, length-append (text ++ c ∷ []) (0 ∷ []), length-append text (c ∷ [])) in
    rw (lt→ltb _ _ long, pop_vec-append (text ++ c ∷ []) 0, set_back-append text c 0)

pub pop_back-holding_nil : pop_back (holding []) ≡ ok (holding [])
unfolding pop_back
pop_back-holding_nil = refl

pub wipe-holding : (text : Bytes) → wipe (holding text) ≡ holding []
unfolding wipe
wipe-holding [] = refl
wipe-holding (c ∷ text) = refl

subscript-append :
    (text rest : Bytes) (i : ℕ) → i < length text → subscript (text ++ rest) i ≡ subscript text i
subscript-append [] rest i h = absurd (omega arith)
subscript-append (x ∷ text) rest zero h = refl
subscript-append (x ∷ text) rest (suc i) h = subscript-append text rest i (omega arith)

subscript-last : (text rest : Bytes) (c : ℕ) → subscript (text ++ c ∷ rest) (length text) ≡ ok c
subscript-last [] rest c = refl
subscript-last (x ∷ text) rest c = subscript-last text rest c

-- What `at` and `back` mean for a list of characters.
abbrev pub char_at : Bytes → ℕ → Outcome ℕ
char_at text i = elim (get_elem? text i) [ none ↦ throw out_of_range_error | some c ↦ ok c ]

abbrev pub last_char : Bytes → Outcome ℕ
last_char [] = throw empty_string_error
last_char (c ∷ []) = ok c
last_char (c ∷ d ∷ text) = last_char (d ∷ text)

at-in : (text : Bytes) (i : ℕ) → i < length text → subscript text i ≡ char_at text i
at-in [] i h = absurd (omega arith)
at-in (x ∷ text) zero h = refl
at-in (x ∷ text) (suc i) h = at-in text i (omega arith)

at-out : (text : Bytes) (i : ℕ) → length text ≤ i → char_at text i ≡ throw out_of_range_error
at-out [] i h = refl
at-out (x ∷ text) zero h = absurd (omega arith)
at-out (x ∷ text) (suc i) h = at-out text i (omega arith)

-- On a text with its terminator, `at` gives the character at an index, and throws an out-of-range
-- error from the text's length on, where the terminator stands.
pub at-holding : (text : Bytes) (i : ℕ) → at (holding text) i ≡ char_at text i
unfolding at size
at-holding text i = rw (size-holding text) (elim (Bool-cases (leb (length text) i)) [
  | inl out ↦ rw out (sym (at-out text i (leb→le _ _ out)))
  | inr inside ↦
      let h : i < length text = ground arith in
      rw inside (subscript-append text (0 ∷ []) i h ∙ at-in text i h)
])

last_char-append : (text : Bytes) (c : ℕ) → last_char (text ++ c ∷ []) ≡ ok c
last_char-append [] c = refl
last_char-append (x ∷ []) c = refl
last_char-append (x ∷ y ∷ text) c = last_char-append (y ∷ text) c

back-suc : (text : Bytes) (c : ℕ) → back (holding (text ++ c ∷ [])) ≡ ok c
unfolding back
back-suc text c =
    let whole = length-append (text ++ c ∷ []) (0 ∷ []) in
    let part = length-append text (c ∷ []) in
    let at_end : length (text ++ c ∷ [] ++ 0 ∷ []) - 1 - 1 ≡ length text =
      omega (arith, whole, part) in
    let some_chars : (size (holding (text ++ c ∷ [])) == 0) ≡ false =
      rw (size-holding (text ++ c ∷ [])) (ground (arith, part)) in
    rw (some_chars, at_end, append_assoc text (c ∷ []) (0 ∷ [])) (subscript-last text (0 ∷ []) c)

back-nil : back (holding []) ≡ throw empty_string_error
unfolding back size
back-nil = refl

-- A list is empty or ends in an element.
pub snoc_cases :
    (text : Bytes) → (text ≡ []) ⊎ ((start : Bytes) × (c : ℕ) × (text ≡ start ++ c ∷ []))
snoc_cases [] = inl refl
snoc_cases (x ∷ text) = elim (snoc_cases text) [
  | inl e ↦ inr ([], x, ap (◌∷◌ x) e)
  | inr (start, c, e) ↦ inr (x ∷ start, c, ap (◌∷◌ x) e)
]

-- On a text with its terminator, `back` gives the last character before the terminator, and throws
-- an empty-string error for the empty text.
pub back-holding : (text : Bytes) → back (holding text) ≡ last_char text
back-holding text = elim (snoc_cases text) [
  | inl e ↦ rw e back-nil
  | inr (start, c, e) ↦ rw (e, last_char-append start c) (back-suc start c)
]
