-- ===== src/Types/SecureString/Turns.antt =====
-- types/string.hpp and utils/console.hpp: how often the two loops `while (is.get(c))` turn.
use sylvite.Common.{
  ℕ, zero, suc, ◌==◌, ◌<◌, ◌≤◌, ◌≡◌, ◌↔◌, refl, ◌∙◌, Bool, true, false, [], ◌∷◌, ◌++◌, append_assoc,
  append-nil, Bytes, length, if◌then◌else◌, Bool-cases, inl, inr, Option, none, some, ltb, ltb→lt,
  ltb→ge, Outcome, ok, throw, undefined, ◌>>=◌, arith,
}
use sylvite.Internal.Base.{Base, char_type, push_back}
use sylvite.Types.SecureString.{read_chars}
use sylvite.Types.SecureString.Lines.{before_delim}
use sylvite.Internal.Base.Text.{holding, push_back-holding}

-- One turn: what is left after it, or how the loop ends. `get` fails at the end of the input.
pub data Turn : Type 0 where
  goes_on : Base char_type → Bytes → Turn
  ends : Outcome (Base char_type × Bytes) → Turn

pushed : Bytes → Outcome (Base char_type) → Turn
pushed input (ok str) = goes_on str input
pushed input (throw e) = ends (throw e)
pushed input undefined = ends undefined

unfoldable pub turn : (ℕ → Bool) → Base char_type → Bytes → Turn
unfolding pushed
turn stop str [] = ends (ok (str, []))
turn stop str (c ∷ input) =
    if stop c then ends (ok (str, input)) else pushed input (push_back str c)

-- The loop with at most so many turns, `none` if it has not ended by then.
unfoldable pub turns :
    ℕ → (ℕ → Bool) → Base char_type → Bytes → Option (Outcome (Base char_type × Bytes))
turns zero stop str input = none
turns (suc fuel) stop str input = elim (turn stop str input) [
  | goes_on after rest ↦ turns fuel stop after rest
  | ends outcome ↦ some outcome
]

-- The characters in front of the first one that stops the loop, and those behind it.
abbrev pub before_stop : (ℕ → Bool) → Bytes → Bytes
before_stop stop [] = []
before_stop stop (c ∷ input) = if stop c then [] else c ∷ before_stop stop input

abbrev pub behind_stop : (ℕ → Bool) → Bytes → Bytes
behind_stop stop [] = []
behind_stop stop (c ∷ input) = if stop c then input else behind_stop stop input

last-turn :
    (fuel : ℕ) (stop : ℕ → Bool) (str : Base char_type) (input : Bytes)
    (outcome : Outcome (Base char_type × Bytes))
    → turn stop str input ≡ ends outcome
    → turns (suc fuel) stop str input ≡ some outcome
unfolding turns
last-turn fuel stop str input outcome e = rw (e, turns) refl

next-turn :
    (fuel : ℕ) (stop : ℕ → Bool) (str after : Base char_type) (input rest : Bytes)
    → turn stop str input ≡ goes_on after rest
    → turns (suc fuel) stop str input ≡ turns fuel stop after rest
unfolding turns
next-turn fuel stop str after input rest e = rw (e, turns) refl

turn-stop :
    (stop : ℕ → Bool) (c : ℕ) (input : Bytes) (str : Base char_type)
    → stop c ≡ true
    → turn stop str (c ∷ input) ≡ ends (ok (str, input))
unfolding turn
turn-stop stop c input str halt = rw halt refl

turn-holding :
    (stop : ℕ → Bool) (c : ℕ) (input text : Bytes)
    → stop c ≡ false
    → turn stop (holding text) (c ∷ input) ≡ goes_on (holding (text ++ c ∷ [])) input
unfolding turn
turn-holding stop c input text on = rw (on, push_back-holding text c) refl

turns-ends :
    (stop : ℕ → Bool) (input text : Bytes) (fuel : ℕ)
    → length (before_stop stop input) < fuel
    → turns fuel stop (holding text) input
      ≡ some (ok (holding (text ++ before_stop stop input), behind_stop stop input))
unfolding turn
turns-ends stop input text zero h = absurd (omega (arith, h))
turns-ends stop [] text (suc fuel) h =
    last-turn fuel stop (holding text) [] (ok (holding text, [])) refl ∙ rw append-nil
turns-ends stop (c ∷ input) text (suc fuel) h = elim (Bool-cases (stop c)) [
  | inl halt ↦
      last-turn fuel stop (holding text) (c ∷ input) _ (turn-stop stop c input (holding text) halt)
      ∙ rw (halt, append-nil) refl
  | inr on ↦
      let left : length (before_stop stop input) < fuel = omega (arith, rw on at h) in
      next-turn fuel stop (holding text) _ (c ∷ input) input (turn-holding stop c input text on)
      ∙ turns-ends stop input (text ++ c ∷ []) fuel left
      ∙ rw (on, append_assoc text (c ∷ []) (before_stop stop input)) refl
]

turns-goes_on :
    (stop : ℕ → Bool) (input text : Bytes) (fuel : ℕ)
    → fuel ≤ length (before_stop stop input)
    → turns fuel stop (holding text) input ≡ none
unfolding turns
turns-goes_on stop input text zero h = refl
turns-goes_on stop [] text (suc fuel) h = absurd (omega (arith, h))
turns-goes_on stop (c ∷ input) text (suc fuel) h = elim (Bool-cases (stop c)) [
  | inl halt ↦ absurd (omega (arith, rw halt at h))
  | inr on ↦
      let left : fuel ≤ length (before_stop stop input) = omega (arith, rw on at h) in
      next-turn fuel stop (holding text) _ (c ∷ input) input (turn-holding stop c input text on)
      ∙ turns-goes_on stop input (text ++ c ∷ []) fuel left
]

-- A loop on a String ends within so many turns exactly if these are more than the characters in front of
-- the first one that stops it.
pub turns_iff :
    (stop : ℕ → Bool) (input text : Bytes) (fuel : ℕ)
    → (turns fuel stop (holding text) input
        ≡ some (ok (holding (text ++ before_stop stop input), behind_stop stop input)))
      ↔ (length (before_stop stop input) < fuel)
turns_iff stop input text fuel = (
  λ e. elim (Bool-cases (ltb (length (before_stop stop input)) fuel)) [
    | inl more ↦ ltb→lt _ _ more
    | inr few ↦ let going = turns-goes_on stop input text fuel (ltb→ge _ _ few) in cc
  ],
  λ h. turns-ends stop input text fuel h,
)

-- A turn that reads a character and goes on as the loop does from there, whatever push_back answers.
turns-push_back :
    (stop : ℕ → Bool) (c : ℕ) (input : Bytes) (str : Base char_type)
    (next : Base char_type → Outcome (Base char_type × Bytes)) (fuel : ℕ)
    (pushed_to : Outcome (Base char_type))
    → stop c ≡ false
    → push_back str c ≡ pushed_to
    → ((after : Base char_type) → turns fuel stop after input ≡ some (next after))
    → turns (suc fuel) stop str (c ∷ input) ≡ some (pushed_to >>= next)
unfolding turn
turns-push_back stop c input str next fuel (ok after) on e rest =
    next-turn fuel stop str after (c ∷ input) input (rw (on, e) refl) ∙ rest after
turns-push_back stop c input str next fuel (throw x) on e rest =
    last-turn fuel stop str (c ∷ input) (throw x) (rw (on, e) refl)
turns-push_back stop c input str next fuel undefined on e rest =
    last-turn fuel stop str (c ∷ input) undefined (rw (on, e) refl)

turns-stop :
    (stop : ℕ → Bool) (c : ℕ) (input : Bytes) (str : Base char_type) (fuel : ℕ)
    → stop c ≡ true
    → turns (suc fuel) stop str (c ∷ input) ≡ some (ok (str, input))
turns-stop stop c input str fuel halt =
    last-turn fuel stop str (c ∷ input) _ (turn-stop stop c input str halt)

-- More turns than there are characters in front of the delimiter are enough for every String.
pub turns-read_chars :
    (delim : ℕ) (input : Bytes) (b : Base char_type) (fuel : ℕ)
    → length (before_delim delim input) < fuel
    → turns fuel (λ c. c == delim) b input ≡ some (read_chars delim input b)
unfolding turns turn read_chars
turns-read_chars delim input b zero h = absurd (omega (arith, h))
turns-read_chars delim [] b (suc fuel) h = refl
turns-read_chars delim (c ∷ input) b (suc fuel) h = elim (Bool-cases (c == delim)) [
  | inl stop ↦ turns-stop (λ c. c == delim) c input b fuel stop ∙ rw stop refl
  | inr more ↦
      let left : length (before_delim delim input) < fuel = omega (arith, rw more at h) in
      turns-push_back (λ c. c == delim) c input b (read_chars delim input) fuel (push_back b c) more
        refl (λ after. turns-read_chars delim input after fuel left)
      ∙ rw more refl
]
