-- ===== src/Asymmetric/Sign/Verified.antt =====
-- asymmetric/box.hpp, namespace sign: signatures verify, and what a short buffer does.
use sylvite.Common.{
  ℕ, ◌<◌, ◌≡◌, ◌↔◌, refl, sym, ◌∙◌, true, false, Bytes, length, ok, throw, undefined, Bool-cases,
  inl, inr, read_at_whole, read_at_short, write_at_whole, zeros, length-replicate, arith,
  invalid_signature,
}
use sylvite.Sodium.Environment.{Environment}
use sylvite.Sodium.Signing.{Signing, SigningLaws}
use sylvite.Internal.Base.{Base, byte_type, size}
use sylvite.Internal.Base.Buffers.{size-bytes}
use sylvite.Asymmetric.KeyPair.{KeyPair, sign_generate_keypair}
use sylvite.Asymmetric.KeyPair.Sizes.{pair_of, sign_generate_keypair-keypair}
use sylvite.Asymmetric.Sign.{sign, verify}

-- A generated pair signs every message with 64 bytes, and the signature verifies with its public key.
pub verify-sign :
    {signing : Signing} (laws : SigningLaws signing) (env : Environment) (msg : Bytes)
    → (pair : KeyPair) × (sig : Bytes) × (sign_generate_keypair signing env ≡ ok pair)
      × (sign signing msg pair.private_key ≡ ok sig)
      × (length sig ≡ 64)
      × (verify signing sig msg pair.public_key ≡ ok true)
unfolding sign verify
verify-sign {signing} laws env msg =
    let (pk, sk) = signing.crypto_sign_keypair env.randombytes_buf in
    let paired = laws.keypair-IsPair env.randombytes_buf in
    let (pk_size, sk_size) = laws.IsPair-length pk sk paired in
    let (sig, signed) = laws.detached_total msg pk sk paired in
    let sig_size = laws.length-detached msg sk sig signed in
    (
      pair_of (pk, sk),
      sig,
      sign_generate_keypair-keypair laws env,
      rw (read_at_whole 64 sk sk_size, signed)
          (write_at_whole sig (zeros 64) (sig_size ∙ sym (length-replicate {A = ℕ} 64 0))),
      sig_size,
      rw (
        read_at_whole 64 sig sig_size,
        read_at_whole 32 pk pk_size,
        laws.verify-detached msg pk sk sig paired signed,
      ),
    )

-- `verify` never returns false: for a signature of 64 bytes and a public key of 32 it returns true or
-- throws an invalid signature, as libsodium accepts the signature or not.
pub verify-detached :
    (signing : Signing) (sig msg : Bytes) (public : Base byte_type)
    → length sig ≡ 64
    → size public ≡ 32
    → ((verify signing sig msg public ≡ ok true)
        ↔ (signing.crypto_sign_verify_detached sig msg public.vec ≡ true))
      × ((verify signing sig msg public ≡ throw invalid_signature)
          ↔ (signing.crypto_sign_verify_detached sig msg public.vec ≡ false))
unfolding verify
verify-detached signing sig msg public sig_size pk_size =
    let sig_read = read_at_whole 64 sig sig_size in
    let pk_read = read_at_whole 32 public.vec (sym (size-bytes public) ∙ pk_size) in
    elim (Bool-cases (signing.crypto_sign_verify_detached sig msg public.vec)) [
      | inl valid ↦ rw (sig_read, pk_read, valid) ((λ e. refl, λ e. refl), (λ e. cc e, λ e. cc e))
      | inr wrong ↦ rw (sig_read, pk_read, wrong) ((λ e. cc e, λ e. cc e), (λ e. refl, λ e. refl))
    ]

-- Neither function checks sizes: a signature of less than 64 bytes is read past its end by `verify`, and a
-- private key of less than 64 bytes, such as one for boxes, by `sign`, whatever the other arguments are.
pub verify_short :
    (signing : Signing) (sig msg : Bytes) (public secret : Base byte_type)
    → length sig < 64
    → size secret < 64
    → (verify signing sig msg public ≡ undefined) × (sign signing msg secret ≡ undefined)
unfolding sign verify
verify_short signing sig msg public secret short short_key = (
  rw (read_at_short 0 64 sig (omega arith)),
  rw (read_at_short 0 64 secret.vec (omega (arith, size-bytes secret))),
)
