-- ===== src/Hash/Hmac/Verify.antt =====
-- hash/hmac.hpp: a tag verifies exactly when it is the one that `mac` makes.
use sylvite.Common.{
  ◌≡◌, ◌↔◌, sym, ◌∙◌, true, Bytes, length, ◌==◌, ok, runtime_error, eq→==, ==_iff, Bool-cases, inl,
  inr, or_throw, or_throw-eq-ok,
}
use sylvite.Sodium.Auth.{Algorithm, Auth, AuthLaws, crypto_auth_bytes}
use sylvite.Hash.Hmac.{mac, verify}

module _ {a : Algorithm} {auth : Auth a} (laws : AuthLaws auth) where
  mac-auth :
      (input key : Bytes)
      → length key ≡ 32
      → mac auth input key ≡ or_throw (auth.crypto_auth input key) runtime_error
  unfolding mac
  mac-auth input key sized = rw (eq→== _ _ sized)

  -- With a key of 32 bytes, `verify` accepts a tag, of any size, exactly when `mac` returns that tag for
  -- the same input and key.
  pub verify-mac :
      (tag input key : Bytes)
      → length key ≡ 32
      → (verify auth tag input key ≡ ok true) ↔ (mac auth input key ≡ ok tag)
  unfolding verify
  verify-mac tag input key sized =
      let made = mac-auth input key sized in
      elim (Bool-cases (length tag == crypto_auth_bytes a)) [
        | inl right ↦
            let law = laws.verify_iff tag input key sized ((==_iff _ _).0 right) in
            (
              λ e.
                  let accepted : auth.crypto_auth_verify tag input key ≡ true =
                    cc (rw (right, eq→== _ _ sized) at e) in
                  made ∙ rw (law.0 accepted),
              λ e.
                  let sealed = or_throw-eq-ok _ runtime_error (sym made ∙ e) in
                  rw (right, eq→== _ _ sized, law.1 sealed),
            )
        | inr wrong ↦ (
          λ e. cc (rw wrong at e),
          λ e.
              let sealed = or_throw-eq-ok _ runtime_error (sym made ∙ e) in
              let long = eq→== _ _ (laws.length-auth input key tag sealed) in cc (long, wrong),
        )
      ]
