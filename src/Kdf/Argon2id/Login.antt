-- ===== src/Kdf/Argon2id/Login.antt =====
-- utils/console.hpp, internal/base.hpp and kdf/argon2id.hpp together: the key from a password that is typed.
use sylvite.Common.{◌≡◌, ◌↔◌, refl, sym, ◌∙◌, Bytes, Option, some, Outcome, ok, ◌>>=◌, arith}
use sylvite.Sodium.Derivation.{Derivation}
use sylvite.Sodium.Terminal.{Terminal}
use sylvite.Internal.Base.{Base, byte_type, size, span_data}
use sylvite.Internal.Base.Text.{span_data-holding}
use sylvite.Kdf.Profile.{Preset, Profile, named}
use sylvite.Kdf.Argon2id.{derive_key}
use sylvite.Kdf.Argon2id.Checks.{derive_key_iff}
use sylvite.Utils.Console.{read_from_console}
use sylvite.Utils.Console.Secrets.{first_line, read_from_console-first_line}

module _ (sodium : Derivation) where
  -- A password read from the console, and the key of 32 bytes from it.
  unfoldable pub login :
      (t : Terminal)
      → t.State
      → Option Bytes
      → Bytes
      → Base byte_type
      → Profile
      → Outcome (Base byte_type)
  login t st prompt input salt profile = (read_from_console t st prompt input).2 >>= λ r.
      span_data r.0 >>= λ password. derive_key sodium password salt 32 profile

  pub login-first_line :
      (t : Terminal) (st : t.State) (prompt : Option Bytes) (input : Bytes) (salt : Base byte_type)
      (profile : Profile)
      → login t st prompt input salt profile ≡ derive_key sodium (first_line input) salt 32 profile
  unfolding login
  login-first_line t st prompt input salt profile =
      rw ((read_from_console-first_line t st prompt input).1, span_data-holding (first_line input))
        refl

  -- A login gives a key exactly when the salt has 16 bytes, the profile is one of the three names, and
  -- libsodium derives 32 bytes from the salt and what was typed in front of the first newline or carriage
  -- return, no byte of it left out or added, with the limits of that profile; the key holds those bytes. The
  -- prompt, the state of the terminal and what is typed behind the line do not matter.
  pub login_iff :
      (t : Terminal) (st : t.State) (prompt : Option Bytes) (input : Bytes) (salt : Base byte_type)
      (profile : Profile) (key : Base byte_type)
      → (login t st prompt input salt profile ≡ ok key) ↔ (
          (size salt ≡ 16)
          × (preset : Preset) × (profile ≡ named preset)
          × (sodium.crypto_pwhash 32
                (first_line input)
                salt.vec
                (sodium.crypto_pwhash_opslimit preset)
                (sodium.crypto_pwhash_memlimit preset)
              ≡ some key.vec))
  login_iff t st prompt input salt profile key =
      let line = login-first_line t st prompt input salt profile in
      let (forth, back) = derive_key_iff sodium (first_line input) salt 32 profile key in
      (
        λ e.
            let (long, salted, preset, same, hashed) = forth (sym line ∙ e) in
            (salted, preset, same, hashed),
        λ h.
            let (salted, preset, same, hashed) = h in
            line ∙ back (omega arith, salted, preset, same, hashed),
      )
