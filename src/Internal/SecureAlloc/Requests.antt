-- ===== src/Internal/SecureAlloc/Requests.antt =====
-- internal/salloc.hpp: the sizes that reach sodium_malloc.
use sylvite.Common.{
  ℕ, ◌-◌, ◌*◌, ◌/◌, ◌%◌, ◌^◌, ◌≤◌, ◌<◌, ◌≡◌, ◌↔◌, refl, ap, ◌==◌, false, ltb, Bool-cases,
  Option-cases, inl, inr, some, ok, throw, std_bad_array_new_length, arith,
}
use native.Mathlib.Nat.{le-div_iff_mul-le, mod-eq_of_lt}
use sylvite.Common.Int.{is_negative, u64_mod}
use sylvite.Sodium.Library.{Library}
use sylvite.Internal.SecureAlloc.{allocate}

-- The division in the guard is the test on the product.
guard_iff :
    (sizeof_t n : ℕ)
    → 0 < sizeof_t
    → (ltb ((u64_mod - 1) / sizeof_t) n ≡ false) ↔ (n * sizeof_t < 2 ^ 64)
guard_iff sizeof_t n positive =
    let product : (n ≤ (u64_mod - 1) / sizeof_t) ↔ (n * sizeof_t ≤ u64_mod - 1) =
      le-div_iff_mul-le positive in
    (
      λ h. let few : n ≤ (u64_mod - 1) / sizeof_t = ground arith in omega (arith, product.0 few),
      λ h. let few : n ≤ (u64_mod - 1) / sizeof_t = product.1 (omega arith) in ground arith,
    )

some_address : (a p : ℕ) → some a ≡ some p → a ≡ p
some_address a p e = cc

module _ (lib : Library) where
  -- Where libsodium is ready, elements of a positive size are asked for, and at least one: the allocator
  -- throws a bad-array-length error exactly when the bytes asked for do not fit in 64 bits, and otherwise
  -- it returns an address exactly when libsodium gives that address for the full number of bytes.
  pub allocate_iff :
      (sizeof_t n p : ℕ) (st : lib.State)
      → 0 < sizeof_t
      → 0 < n
      → is_negative (lib.sodium_init st).0 ≡ false
      → (((allocate lib sizeof_t st n).1 ≡ throw std_bad_array_new_length)
          ↔ (2 ^ 64 ≤ n * sizeof_t))
        × (((allocate lib sizeof_t st n).1 ≡ ok (some p)) ↔ (
            (n * sizeof_t < 2 ^ 64)
            × ((lib.sodium_malloc (lib.sodium_init st).1 (n * sizeof_t)).0 ≡ some p)))
  unfolding allocate
  allocate_iff sizeof_t n p st positive some_n ready =
      let asked : (n == 0) ≡ false = ground arith in
      let guard = guard_iff sizeof_t n positive in
      elim (Bool-cases (ltb ((u64_mod - 1) / sizeof_t) n)) [
        | inl many ↦
            let large : 2 ^ 64 ≤ n * sizeof_t = ground (arith, guard) in
            rw (ready, asked, many)
              ((λ e. large, λ h. refl), (λ e. cc e, λ h. absurd (omega (arith, large, h.0))))
        | inr fits ↦
            let small : n * sizeof_t < 2 ^ 64 = guard.0 fits in
            let exact : n * sizeof_t % u64_mod ≡ n * sizeof_t = mod-eq_of_lt small in
            rw (ready, asked, fits, exact)
              (elim (Option-cases (lib.sodium_malloc (lib.sodium_init st).1 (n * sizeof_t)).0) [
                | inl null ↦
                    rw null (
                      (λ e. cc e, λ h. absurd (omega (arith, small, h))),
                      (λ e. cc e, λ h. cc (h.1)),
                    )
                | inr (a, given) ↦ rw given (
                  (λ e. cc e, λ h. absurd (omega (arith, small, h))),
                  (
                    λ e. let same : a ≡ p = cc in (small, ap some same),
                    λ h. rw (some_address a p h.1),
                  ),
                )
              ])
      ]
