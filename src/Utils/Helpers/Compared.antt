-- ===== src/Utils/Helpers/Compared.antt =====
-- utils/utils.hpp: what memory_compare compares.
use sylvite.Common.{
  ℕ, ◌≤◌, ◌≡◌, ◌↔◌, refl, sym, ap, ◌∙◌, true, Bytes, length, take, ◌==◌, ok, Bool-cases, inl, inr,
  read_at_start, eq→==, ==_iff, length-take, arith,
}
use sylvite.Sodium.Memory.{Memory, MemoryLaws}
use sylvite.Utils.Helpers.{memory_compare}

-- For spans with elements of at least a byte, `memory_compare` succeeds exactly when the spans have the
-- same number n of elements and agree in their first n bytes, which is all of them for elements of one
-- byte and less for wider ones.
pub memory_compare_iff :
    {memory : Memory} (laws : MemoryLaws memory) (m n : ℕ) (xs ys : Bytes)
    → m ≤ length xs
    → n ≤ length ys
    → (memory_compare memory (record { size = m; bytes = xs }) (record { size = n; bytes = ys })
        ≡ ok tt)
      ↔ ((m ≡ n) × (take m xs ≡ take n ys))
unfolding memory_compare
memory_compare_iff {memory} laws m n xs ys xs_long ys_long = elim (Bool-cases (m == n)) [
  | inr differ ↦ (λ e. cc (rw differ at e), λ h. let same : (m == n) ≡ true = eq→== _ _ h.0 in cc)
  | inl same ↦
      let sizes : m ≡ n = (==_iff _ _).0 same in
      let fit : length (take m xs) ≡ length (take m ys) =
        omega (arith, sizes, length-take m xs, length-take m ys) in
      let equal = laws.memcmp_iff (take m xs) (take m ys) fit in
      let x = read_at_start m xs xs_long in
      let y = read_at_start m ys (omega (arith, sizes)) in
      let agree : (take m ys ≡ take n ys) = ap (λ (k : ℕ). take k ys) sizes in
      elim (Bool-cases (memory.sodium_memcmp (take m xs) (take m ys))) [
        | inl agrees ↦ rw (same, x, y, agrees) (λ e. (sizes, equal.0 agrees ∙ agree), λ h. refl)
        | inr differs ↦
            rw (same, x, y, differs) (λ e. cc e, λ h. let agrees = equal.1 (h.1 ∙ sym agree) in cc)
      ]
]
