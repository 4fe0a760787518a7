-- ===== src/Hash/Blake2b/Checks.antt =====
-- hash/hash.hpp, namespace Blake2b: which sizes are accepted.
use sylvite.Common.{
  ℕ, ◌≤◌, ◌<◌, ◌≡◌, ◌↔◌, ◌⊎◌, sym, ◌∙◌, Bool, true, false, not, ◌&&◌, ◌||◌, Bytes, length, ltb,
  ◌==◌, Bool-cases, inl, inr, some, ok, throw, or_throw, or_throw-eq-ok, logic_error, runtime_error,
  arith,
}
use sylvite.Sodium.GenericHash.{GenericHash, IsSized}
use sylvite.Hash.Blake2b.{digest, new}

-- The two tests of `digest`.
abbrev size_test : ℕ → Bool
size_test n = ltb n 16 || ltb 64 n

abbrev key_test : ℕ → Bool
key_test n = not (n == 0) && (ltb n 16 || ltb 64 n)

size_test_fails : (n : ℕ) → (size_test n ≡ false) ↔ ((16 ≤ n) × (n ≤ 64))
size_test_fails n = ground arith

key_test_fails : (n : ℕ) → (key_test n ≡ false) ↔ ((n ≡ 0) ⊎ ((16 ≤ n) × (n ≤ 64)))
key_test_fails n = ground arith

module _ (generic : GenericHash) where
  digest_checks :
      (input : Bytes) (out_len : ℕ) (key out : Bytes)
      → digest generic input out_len key ≡ ok out
      → IsSized out_len key
  unfolding digest
  digest_checks input out_len key out e = elim (Bool-cases (size_test out_len)) [
    | inl wrong ↦ cc (rw wrong at e)
    | inr sized ↦ elim (Bool-cases (key_test (length key))) [
      | inl wrong ↦ cc (rw (sized, wrong) at e)
      | inr keyed ↦
          let (low, high) = (size_test_fails out_len).0 sized in
          (low, high, (key_test_fails (length key)).0 keyed)
    ]
  ]

  pub digest-generichash :
      (input : Bytes) (out_len : ℕ) (key : Bytes)
      → IsSized out_len key
      → digest generic input out_len key
        ≡ or_throw (generic.crypto_generichash out_len input key) runtime_error
  unfolding digest
  digest-generichash input out_len key sized =
      rw ((size_test_fails out_len).1 (sized.0, sized.1), (key_test_fails (length key)).1 sized.2)

  -- `digest` returns a hash exactly when the size asked for is from 16 to 64, the key is empty or has from
  -- 16 to 64 bytes, and libsodium hashes the input to it.
  pub digest_iff :
      (input : Bytes) (out_len : ℕ) (key out : Bytes)
      → (digest generic input out_len key ≡ ok out) ↔ (
          (16 ≤ out_len)
          × (out_len ≤ 64)
          × ((length key ≡ 0) ⊎ ((16 ≤ length key) × (length key ≤ 64)))
          × (generic.crypto_generichash out_len input key ≡ some out))
  digest_iff input out_len key out = (
    λ e.
        let sized = digest_checks input out_len key out e in
        (
          sized.0,
          sized.1,
          sized.2,
          or_throw-eq-ok _ runtime_error (sym (digest-generichash input out_len key sized) ∙ e),
        ),
    λ h.
        let (low, high, keyed, hashed) = h in
        digest-generichash input out_len key (low, high, keyed) ∙ rw hashed,
  )

  pub new-init :
      (out_len : ℕ) (key : Bytes) (st : (generic.parts out_len).State)
      → 16 ≤ out_len
      → out_len ≤ 64
      → generic.init key out_len ≡ some st
      → new generic out_len key
        ≡ ok (record { out_len = out_len; stream = record { state = st; finalized = false } })
  unfolding new
  new-init out_len key st low high started = rw ((size_test_fails out_len).1 (low, high), started)

  -- The stream takes keys that `digest` refuses: for an allowed size and a key of 1 to 15 bytes, `digest`
  -- throws a logic error, and the constructor makes a stream if libsodium starts a state with the key.
  pub new_short_key :
      (input : Bytes) (out_len : ℕ) (key : Bytes) (st : (generic.parts out_len).State)
      → 16 ≤ out_len
      → out_len ≤ 64
      → 0 < length key
      → length key < 16
      → generic.init key out_len ≡ some st
      → (digest generic input out_len key ≡ throw logic_error)
        × (new generic out_len key
            ≡ ok (record { out_len = out_len; stream = record { state = st; finalized = false } }))
  unfolding digest
  new_short_key input out_len key st low high some_key short started =
      let refused : key_test (length key) ≡ true = ground arith in
      (
        rw ((size_test_fails out_len).1 (low, high), refused),
        new-init out_len key st low high started,
      )
