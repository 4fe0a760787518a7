-- ===== src/Types/SecureString/Refinement.antt =====
-- types/string.hpp and internal/base.hpp: any history of calls keeps the terminator, and the text is
-- what the same history makes of a plain list of characters.
use sylvite.Common.{
  ◌∙◌, ℕ, ◌≡◌, refl, List, [], ◌∷◌, ◌++◌, Bytes, length, Outcome, ok, ◌>>=◌, inl, inr, arith,
  length-append, suc,
}
use sylvite.Internal.Base.{Base, char_type, size, at, back, push_back, pop_back, wipe}
use sylvite.Internal.Base.Text.{
  holding, size-holding, push_back-holding, pop_back-holding, pop_back-holding_nil, wipe-holding,
  snoc_cases, char_at, last_char, at-holding, back-holding,
}
use sylvite.Types.SecureString.{new, from_vector}

-- The calls that change a text.
pub data Call : Type 0 where
  push : ℕ → Call
  pop wiped : Call

unfoldable pub run : List Call → Base char_type → Outcome (Base char_type)
run [] b = ok b
run (push c ∷ calls) b = push_back b c >>= run calls
run (pop ∷ calls) b = pop_back b >>= run calls
run (wiped ∷ calls) b = run calls (wipe b)

abbrev pub drop_last : Bytes → Bytes
drop_last [] = []
drop_last (c ∷ []) = []
drop_last (c ∷ d ∷ text) = c ∷ drop_last (d ∷ text)

-- The specification: the same calls on a list.
abbrev pub run_spec : List Call → Bytes → Bytes
run_spec [] text = text
run_spec (push c ∷ calls) text = run_spec calls (text ++ c ∷ [])
run_spec (pop ∷ calls) text = run_spec calls (drop_last text)
run_spec (wiped ∷ calls) text = run_spec calls []

drop_last-append : (text : Bytes) (c : ℕ) → drop_last (text ++ c ∷ []) ≡ text
drop_last-append [] c = refl
drop_last-append (x ∷ []) c = refl
drop_last-append (x ∷ y ∷ text) c = rw (drop_last-append (y ∷ text) c)

pop_back-drop_last : (text : Bytes) → pop_back (holding text) ≡ ok (holding (drop_last text))
pop_back-drop_last text = elim (snoc_cases text) [
  | inl e ↦ rw e pop_back-holding_nil
  | inr (start, c, e) ↦ rw (e, drop_last-append start c) (pop_back-holding start c)
]

run-holding :
    (calls : List Call) (text : Bytes)
    → run calls (holding text) ≡ ok (holding (run_spec calls text))
unfolding run
run-holding [] text = refl
run-holding (push c ∷ calls) text =
    rw (push_back-holding text c) (run-holding calls (text ++ c ∷ []))
run-holding (pop ∷ calls) text = rw (pop_back-drop_last text) (run-holding calls (drop_last text))
run-holding (wiped ∷ calls) text = rw (wipe-holding text) (run-holding calls [])

-- A default String on which any calls of push_back, pop_back and wipe are made never faults or throws,
-- and ends up as the list that the same calls give, with one terminator behind it: size() is the list's
-- length, at() at any index and back() give the list's characters, and throw where it has none.
pub run-new :
    (calls : List Call) (i : ℕ)
    → (run calls new ≡ ok (holding (run_spec calls [])))
      × (size (holding (run_spec calls [])) ≡ length (run_spec calls []))
      × (at (holding (run_spec calls [])) i ≡ char_at (run_spec calls []) i)
      × (back (holding (run_spec calls [])) ≡ last_char (run_spec calls []))
unfolding new
run-new calls i =
    let text : Bytes = run_spec calls [] in
    (run-holding calls [], size-holding text, at-holding text i, back-holding text)

-- A String made from a vector that ends in a terminator counts that terminator as a character: for
-- any text, its size is one more than the text has.
pub size-from_vector : (text : Bytes) → size (from_vector (text ++ 0 ∷ [])) ≡ suc (length text)
unfolding from_vector size
size-from_vector text = size-holding (text ++ 0 ∷ []) ∙ omega (arith, length-append text (0 ∷ []))
