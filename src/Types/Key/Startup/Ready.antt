-- ===== src/Types/Key/Startup/Ready.antt =====
-- types/key.hpp: a key is only made once libsodium is initialised.
use sylvite.Common.{
  ℕ, ◌<◌, ◌≡◌, true, false, ◌==◌, Bool-cases, Option, inl, inr, none, Outcome, ok, throw, undefined,
  >>=-eq-ok, runtime_error, arith,
}
use sylvite.Common.Int.{is_negative}
use sylvite.Sodium.Library.{Library}
use sylvite.Init.{Process, ensure_init}
use sylvite.Internal.Base.{Base, byte_type}
use sylvite.Internal.SecureAlloc.{allocate}
use sylvite.Types.Key.{new}
use sylvite.Types.Key.Startup.{body, construct}

module _ (lib : Library) where
  ensure_init-ok :
      (process : Process lib)
      → (ensure_init lib process).1 ≡ ok tt
      → (ensure_init lib process).0.ok_is_set ≡ true
  unfolding ensure_init
  ensure_init-ok process e = elim (Bool-cases process.ok_is_set) [
    | inl set ↦ simp set
    | inr unset ↦ elim (Bool-cases (is_negative (lib.sodium_init process.state).0)) [
      | inl failed ↦ cc
      | inr fine ↦ simp (unset, fine)
    ]
  ]

  made_key : (n : ℕ) (key : Base byte_type) → ok (new n) ≡ ok key → key ≡ new n
  made_key n key e = cc

  body-ok :
      (process : Process lib) (n : ℕ) (p : Outcome (Option ℕ)) (key : Base byte_type)
      → (body lib process n p).1 ≡ ok key
      → ((body lib process n p).0.ok_is_set ≡ true) × (key ≡ new n)
  unfolding body
  body-ok process n (ok address) key e =
      let (d, done, made) = >>=-eq-ok (ensure_init lib process).1 _ e in
      (ensure_init-ok process done, made_key n key made)
  body-ok process n (throw thrown) key e = cc e
  body-ok process n undefined key e = cc e

  -- Whatever libsodium answers, a key that the constructor returns is the zero key of the size asked for,
  -- and is returned only with the static variable of `ensure_init` set.
  pub construct-ok :
      (process : Process lib) (n : ℕ) (key : Base byte_type)
      → (construct lib process n).1 ≡ ok key
      → ((construct lib process n).0.ok_is_set ≡ true) × (key ≡ new n)
  unfolding construct
  construct-ok process n key e = elim (Bool-cases (n == 0)) [
    | inl zero_size ↦ rw zero_size (body-ok process n (ok none) key (rw zero_size at e))
    | inr sized ↦
        let (st, p) = allocate lib 1 process.state n in
        rw sized (body-ok (record process { state = st }) n p key (rw sized at e))
  ]

  -- If libsodium's initialisation fails, a constructor with a size that is not 0 throws the allocator's
  -- runtime error, and the static variable of `ensure_init` stays as it was.
  pub construct_fails :
      (process : Process lib) (n : ℕ)
      → 0 < n
      → is_negative (lib.sodium_init process.state).0 ≡ true
      → ((construct lib process n).1 ≡ throw runtime_error)
        × ((construct lib process n).0.ok_is_set ≡ process.ok_is_set)
  unfolding construct body allocate
  construct_fails process n some_size failed =
      let sized : (n == 0) ≡ false = ground arith in (simp (sized, failed), simp (sized, failed))
