-- ===== src/Common/Once.antt =====
-- Counting what a `finalized_` flag lets through: for the theorems on streams of every kind.
use Prim.Native.Nat.{ℕ}
use mathlib.Core.Bool.{Bool, true, false}
use sylvite.Common.Result.{Outcome, ok, throw, undefined}

abbrev pub succeeded {ℓ} : {A : Type ℓ} → Outcome A → ℕ
succeeded (ok a) = 1
succeeded (throw e) = 0
succeeded undefined = 0

-- The room that a flag leaves for one last result.
abbrev pub room : Bool → ℕ
room true = 0
room false = 1

-- What a call counts for that is made behind the last result.
abbrev pub late : Bool → ℕ → ℕ
late true n = n
late false n = 0
