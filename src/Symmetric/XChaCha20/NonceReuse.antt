-- ===== src/Symmetric/XChaCha20/NonceReuse.antt =====
-- symmetric/xchacha20.hpp: what the `used_` flag prevents, and what nothing prevents.
use sylvite.Common.{
  succeeded, ℕ, ◌+◌, ◌≤◌, ◌<◌, ◌≡◌, Bool, true, false, List, [], ◌∷◌, Bytes, replicate, Outcome, ok,
  throw, undefined, arith, Bool-cases, inl, inr, some, read_at_short, read_at_start, read_at_whole,
  sym, ◌∙◌, ◌==◌, take,
}
use sylvite.Sodium.Environment.{Environment}
use sylvite.Sodium.Memory.{Memory}
use sylvite.Sodium.Aead.{Aead}
use sylvite.Internal.Base.{Base, byte_type, size, of_size}
use sylvite.Internal.Base.Buffers.{size-bytes}
use sylvite.Types.Nonce.{
  Generation, eager, Nonce, modify, random_generate_sized, random_generate, increment, of_length,
}
use sylvite.Symmetric.XChaCha20.RoundTrip.{IsReady, generated-size, encrypt-marked}
use sylvite.Symmetric.XChaCha20.{generated, seal, marked, encrypt}

-- The calls that a program makes on one eager nonce.
pub data Call : Type 0 where
  encrypts : Environment → Bytes → Bytes → Call
  randomizes : Environment → Call
  resizes : Environment → ℕ → Call
  increments : Call

module _ (aead : Aead) (memory : Memory) (key : Base byte_type) where
  -- The number of ciphertexts that the calls produce.
  unfoldable pub ciphertexts : List Call → Nonce eager → ℕ
  ciphertexts [] nonce = 0
  ciphertexts (encrypts env plaintext aad ∷ calls) nonce =
      let (after, result) = encrypt aead env plaintext key nonce aad in
      succeeded result + ciphertexts calls after
  ciphertexts (randomizes env ∷ calls) nonce = ciphertexts calls (random_generate env nonce)
  ciphertexts (resizes env n ∷ calls) nonce = ciphertexts calls (random_generate_sized env nonce n)
  ciphertexts (increments ∷ calls) nonce = ciphertexts calls (increment memory nonce)

-- The number of calls that give the nonce new bytes.
unfoldable pub refreshes : List Call → ℕ
refreshes [] = 0
refreshes (encrypts env plaintext aad ∷ calls) = refreshes calls
refreshes (randomizes env ∷ calls) = 1 + refreshes calls
refreshes (resizes env n ∷ calls) = 1 + refreshes calls
refreshes (increments ∷ calls) = 1 + refreshes calls

abbrev pub room : Bool → ℕ
room true = 0
room false = 1

marked-room :
    (nonce : Nonce eager) (r : Outcome (Base byte_type))
    → succeeded (marked nonce r).1 + room (marked nonce r).0.used ≤ 1
unfolding marked modify
marked-room nonce (ok ct) = omega arith
marked-room nonce (throw e) = ground arith
marked-room nonce undefined = ground arith

-- One encryption with an eager nonce succeeds only if the nonce is unused, and then uses it up.
encrypt-room :
    (aead : Aead) (env : Environment) (plaintext : Bytes) (key : Base byte_type)
    (nonce : Nonce eager) (aad : Bytes)
    → let (after, result) = encrypt aead env plaintext key nonce aad in
      succeeded result + room after.used ≤ room nonce.used
unfolding encrypt generated
encrypt-room aead env plaintext key nonce aad = elim (Bool-cases nonce.used) [
  | inl spent ↦ simp spent (omega arith)
  | inr fresh ↦ elim (Bool-cases (size nonce.buffer == 24)) [
    | inl right ↦
        simp (fresh, right) (marked-room nonce (seal aead plaintext key nonce.buffer.vec aad))
    | inr wrong ↦ simp (fresh, wrong) (omega arith)
  ]
]

room-le : (b : Bool) → room b ≤ 1
room-le true = omega arith
room-le false = omega arith

module _ (aead : Aead) (memory : Memory) (key : Base byte_type) where
  -- Whatever calls a program makes on one eager nonce, in any order, it gets at most one ciphertext
  -- more than the number of calls that renew the nonce, and not even that one if the nonce starts used.
  pub ciphertexts-le :
      (calls : List Call) (nonce : Nonce eager)
      → ciphertexts aead memory key calls nonce ≤ refreshes calls + room nonce.used
  unfolding ciphertexts refreshes
  ciphertexts-le [] nonce = omega arith
  ciphertexts-le (encrypts env plaintext aad ∷ calls) nonce =
      let after = (encrypt aead env plaintext key nonce aad).0 in
      omega (arith, encrypt-room aead env plaintext key nonce aad, ciphertexts-le calls after)
  ciphertexts-le (randomizes env ∷ calls) nonce = omega (
    arith,
    ciphertexts-le calls (random_generate env nonce),
    room-le (random_generate env nonce).used,
  )
  ciphertexts-le (resizes env n ∷ calls) nonce = omega (
    arith,
    ciphertexts-le calls (random_generate_sized env nonce n),
    room-le (random_generate_sized env nonce n).used,
  )
  ciphertexts-le (increments ∷ calls) nonce =
      omega (
        arith,
        ciphertexts-le calls (increment memory nonce),
        room-le (increment memory nonce).used,
      )

-- A nonce that was just made with the size 24 is 24 zero bytes, not random ones: for a key of at
-- least 32 bytes, and a plaintext that libsodium seals to some ciphertext under 24 zero bytes, the
-- call returns that ciphertext in every environment.
pub encrypt-of_length :
    (aead : Aead) (env : Environment) (plaintext : Bytes) (key : Base byte_type) (aad c : Bytes)
    → 32 ≤ size key
    → aead.crypto_aead_encrypt plaintext aad (replicate 24 0) (take 32 key.vec) ≡ some c
    → (encrypt aead env plaintext key (of_length 24) aad).1 ≡ ok (record { vec = c })
unfolding encrypt generated seal marked of_length of_size size
encrypt-of_length aead env plaintext key aad c long sealed =
    rw (read_at_start 32 key.vec (rw (size-bytes key) at long), sealed)

-- The key's size is not checked: with a fresh nonce that is ready and a key of less than 32 bytes, the
-- call reads behind the end of the key.
pub encrypt_short_key :
    (aead : Aead) (env : Environment) {M : Generation} (plaintext : Bytes) (key : Base byte_type)
    (nonce : Nonce M) (aad : Bytes)
    → nonce.used ≡ false
    → IsReady nonce
    → size key < 32
    → (encrypt aead env plaintext key nonce aad).1 ≡ undefined
unfolding seal marked
encrypt_short_key aead env plaintext key nonce aad fresh ready short =
    let nonce' = generated env nonce in
    rw (
      encrypt-marked aead env plaintext key nonce aad fresh ready,
      read_at_whole 24 nonce'.buffer.vec
          (sym (size-bytes nonce'.buffer) ∙ generated-size env nonce ready),
      read_at_short 0 32 key.vec (omega (arith, size-bytes key)),
    )
