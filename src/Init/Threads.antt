-- ===== src/Init/Threads.antt =====
-- init.hpp: `ensure_init` called from several threads. The language lets one thread at a time run the
-- initialiser of a static variable; the others wait until it has returned or thrown.
use sylvite.Common.{
  ℕ, zero, suc, ◌≡◌, ◌≢◌, ◌⊎◌, refl, sym, ap, ◌∙◌, Bool, true, false, List, [], ◌∷◌, length,
  Outcome, ok, throw, undefined, Bool-cases, inl, inr,
}
use sylvite.Common.Int.{is_negative}
use sylvite.Sodium.Library.{Library}
use sylvite.Init.{Process, ensure_init}
use sylvite.Init.Retries.{attempts, SucceedsAfter}

-- The static variable: not initialised, its initialiser being run by a thread, or initialised.
pub data Guard : Type 0 where
  untouched settled : Guard
  running : ℕ → Guard

abbrev pub guard_of : Bool → Guard
guard_of true = settled
guard_of false = untouched

-- The threads that `ensure_init` has thrown to, and those it has returned to, the latest first.
pub record Machine (lib : Library) : Type 0 where
  pub guard : Guard
  pub state : lib.State
  pub failed : List ℕ
  pub passed : List ℕ

module _ (lib : Library) where
  unfoldable pub finish : ℕ → Process lib × Outcome (Unit {0}) → Machine lib → Machine lib
  finish i (process, ok done) m = record m {
    guard = guard_of process.ok_is_set;
    state = process.state;
    passed = i ∷ m.passed;
  }
  finish i (process, throw e) m = record m {
    guard = guard_of process.ok_is_set;
    state = process.state;
    failed = i ∷ m.failed;
  }
  finish i (process, undefined) m = m

  abbrev pub process : Bool → Machine lib → Process lib
  process ok_is_set m = record { ok_is_set = ok_is_set; state = m.state }

  -- A step of the thread i: it starts the initialiser, ends it, or finds the variable initialised.
  pub data Step (m : Machine lib) : Machine lib → Type 0 where
    enters : (i : ℕ) → m.guard ≡ untouched → Step m (record m { guard = running i })
    runs : (i : ℕ) → m.guard ≡ running i → Step m (finish i (ensure_init lib (process false m)) m)
    passes : (i : ℕ) → m.guard ≡ settled → Step m (finish i (ensure_init lib (process true m)) m)

  pub data Reach (m : Machine lib) : Machine lib → Type 0 where
    start : Reach m m
    next : {u v : Machine lib} → Reach m u → Step u v → Reach m v

  abbrev pub before_calls : lib.State → Machine lib
  before_calls st = record { guard = untouched; state = st; failed = []; passed = [] }

  -- The first k attempts to initialise libsodium fail.
  unfoldable pub FailsFirst : ℕ → lib.State → Type 0
  FailsFirst zero st = Unit {0}
  FailsFirst (suc k) st =
      (is_negative (lib.sodium_init st).0 ≡ true) × FailsFirst k (lib.sodium_init st).1

  attempts-suc :
      (k : ℕ) (st : lib.State) → attempts lib (suc k) st ≡ (lib.sodium_init (attempts lib k st)).1
  unfolding attempts
  attempts-suc zero st = refl
  attempts-suc (suc k) st = attempts-suc k (lib.sodium_init st).1

  FailsFirst-suc :
      (k : ℕ) (st : lib.State)
      → FailsFirst k st
      → is_negative (lib.sodium_init (attempts lib k st)).0 ≡ true
      → FailsFirst (suc k) st
  unfolding FailsFirst attempts
  FailsFirst-suc zero st h e = (e, tt)
  FailsFirst-suc (suc k) st (failed, h) e = (failed, FailsFirst-suc k (lib.sodium_init st).1 h e)

  FailsFirst-SucceedsAfter :
      (k : ℕ) (st : lib.State)
      → FailsFirst k st
      → is_negative (lib.sodium_init (attempts lib k st)).0 ≡ false
      → SucceedsAfter lib k st
  unfolding FailsFirst attempts SucceedsAfter
  FailsFirst-SucceedsAfter zero st h e = e
  FailsFirst-SucceedsAfter (suc k) st (failed, h) e =
      (failed, FailsFirst-SucceedsAfter k (lib.sodium_init st).1 h e)

  -- Every thread that got an exception made an attempt that failed, and no other attempts were made but
  -- the one that succeeded.
  abbrev pub Waiting : lib.State → Machine lib → Type 0
  Waiting st m =
      (m.passed ≡ [])
      × FailsFirst (length m.failed) st
      × (m.state ≡ attempts lib (length m.failed) st)

  abbrev pub Settled : lib.State → Machine lib → Type 0
  Settled st m =
      (m.passed ≢ [])
      × SucceedsAfter lib (length m.failed) st
      × (m.state ≡ attempts lib (suc (length m.failed)) st)

  abbrev pub Once : lib.State → Machine lib → Type 0
  Once st m = ((m.guard ≢ settled) × Waiting st m) ⊎ ((m.guard ≡ settled) × Settled st m)

  runs-Once :
      (st : lib.State) (m : Machine lib) (i : ℕ)
      → m.guard ≡ running i
      → Waiting st m
      → Once st (finish i (ensure_init lib (process false m)) m)
  unfolding finish ensure_init
  runs-Once st m i e (none_yet, fails, reached) =
      elim (Bool-cases (is_negative (lib.sodium_init m.state).0)) [
        | inl failed ↦
            let again = ap (λ s. is_negative (lib.sodium_init s).0) (sym reached) ∙ failed in
            simp failed (
              inl (
                (λ p. cc p),
                (
                  none_yet,
                  FailsFirst-suc (length m.failed) st fails again,
                  ap (λ s. (lib.sodium_init s).1) reached ∙ sym (attempts-suc (length m.failed) st),
                ),
              ))
        | inr done ↦
            let again = ap (λ s. is_negative (lib.sodium_init s).0) (sym reached) ∙ done in
            simp done (
              inr (
                refl,
                (
                  (λ p. cc p),
                  FailsFirst-SucceedsAfter (length m.failed) st fails again,
                  ap (λ s. (lib.sodium_init s).1) reached ∙ sym (attempts-suc (length m.failed) st),
                ),
              ))
      ]

  Step-Once : (st : lib.State) (m u : Machine lib) → Step m u → Once st m → Once st u
  unfolding finish ensure_init
  Step-Once st m u (enters i e) (inl (waiting, h)) = inl ((λ p. cc p), h)
  Step-Once st m u (enters i e) (inr (done, h)) = cc (sym e ∙ done)
  Step-Once st m u (runs i e) (inl (waiting, h)) = runs-Once st m i e h
  Step-Once st m u (runs i e) (inr (done, h)) = cc (sym e ∙ done)
  Step-Once st m u (passes i e) (inl (waiting, h)) = absurd (waiting e)
  Step-Once st m u (passes i e) (inr (done, h)) = inr (refl, ((λ p. cc p), h.1, h.2))

  Reach-Once : (st : lib.State) (m u : Machine lib) → Reach m u → Once st m → Once st u
  Reach-Once st m u start h = h
  Reach-Once st m u (next {u = v} r step) h = Step-Once st v u step (Reach-Once st m v r h)

  -- However the calls of `ensure_init` from any number of threads take turns: as long as the static
  -- variable is not initialised, no call has returned, and libsodium has been asked to initialise once
  -- for each call that threw, and failed each time. Once it is, some call has returned, and libsodium has
  -- been asked once more, which succeeded, and never again.
  pub reached-Once : (st : lib.State) (m : Machine lib) → Reach (before_calls st) m → Once st m
  unfolding FailsFirst attempts
  reached-Once st m r = Reach-Once st (before_calls st) m r (inl ((λ p. cc p), (refl, tt, refl)))
