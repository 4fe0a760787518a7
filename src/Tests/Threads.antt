-- ===== src/Tests/Threads.antt =====
-- Three threads that initialise libsodium, where the first two attempts fail.
use sylvite.Common.{ℕ, refl, List, [], ◌∷◌}
use sylvite.Init.{ensure_init}
use sylvite.Init.Threads.{
  Guard, untouched, running, settled, Machine, finish, enters, runs, passes, start, next, Once,
  reached-Once,
}
use sylvite.Tests.System.{lib}

abbrev machine : Guard → ℕ → List ℕ → List ℕ → Machine lib
machine guard tried failed passed = record {
  guard = guard;
  state = tried;
  failed = failed;
  passed = passed;
}

reached-Once_example : Once lib 0 (machine settled 3 (8 ∷ 7 ∷ []) (7 ∷ 9 ∷ []))
unfolding finish ensure_init
reached-Once_example = reached-Once lib 0 (machine settled 3 (8 ∷ 7 ∷ []) (7 ∷ 9 ∷ [])) (
    next {u = machine settled 3 (8 ∷ 7 ∷ []) (9 ∷ [])}
      (next {u = machine (running 9) 2 (8 ∷ 7 ∷ []) []}
        (next {u = machine untouched 2 (8 ∷ 7 ∷ []) []}
          (next {u = machine (running 8) 1 (7 ∷ []) []}
            (next {u = machine untouched 1 (7 ∷ []) []}
              (next {u = machine (running 7) 0 [] []}
                (next {u = machine untouched 0 [] []} start (enters 7 refl)) (runs 7 refl))
              (enters 8 refl))
            (runs 8 refl))
          (enters 9 refl))
        (runs 9 refl))
      (passes 7 refl))
