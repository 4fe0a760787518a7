-- ===== src/Pq/Kem.antt =====
-- pq/kem.hpp, KeyPair and the namespace XWing, with libsodium's functions and sizes as a parameter: the
-- namespace MlKem768 repeats the code.
pub mod RoundTrip
use sylvite.Common.{
  ℕ, Bool, not, Bytes, ◌==◌, Outcome, ok, ◌>>=◌, ◌>>◌, throw_if, or_throw, read_at, write_at,
  logic_error, runtime_error,
}
use sylvite.Sodium.Environment.{Environment}
use sylvite.Sodium.Kem.{Kem}
use sylvite.Internal.Base.{Base, byte_type, size}
use sylvite.Types.PublicKey
use sylvite.Types.PrivateKey

pub record KeyPair : Type 0 where
  pub public_key : Base byte_type
  pub secret_key : Base byte_type

unfoldable pub resize_to_xwing_sizes : KeyPair → KeyPair
resize_to_xwing_sizes pair = record {
  public_key = PublicKey.resize 1216 pair.public_key;
  secret_key = PrivateKey.resize 32 pair.secret_key;
}

unfoldable pub resize_to_ml_kem768_sizes : KeyPair → KeyPair
resize_to_ml_kem768_sizes pair = record {
  public_key = PublicKey.resize 1184 pair.public_key;
  secret_key = PrivateKey.resize 2400 pair.secret_key;
}

module _ (kem : Kem) where
  abbrev pub public_key_size : ℕ
  public_key_size = kem.publickeybytes

  abbrev pub secret_key_size : ℕ
  secret_key_size = kem.secretkeybytes

  abbrev pub shared_key_size : ℕ
  shared_key_size = kem.sharedsecretbytes

  abbrev pub ciphertext_size : ℕ
  ciphertext_size = kem.ciphertextbytes

  -- Both keys are resized first, and libsodium writes into them.
  unfoldable pub generate_keypair : Environment → Outcome KeyPair
  generate_keypair env = do
    let public_key = PublicKey.resize kem.publickeybytes PublicKey.new
    let secret_key = PrivateKey.resize kem.secretkeybytes PrivateKey.new
    (p, s) ← or_throw (kem.keypair env.randombytes_buf) runtime_error
    pk ← write_at 0 p public_key.vec
    sk ← write_at 0 s secret_key.vec
    ok (record { public_key = record { vec = pk }; secret_key = record { vec = sk } })

  -- The shared secret, then the ciphertext.
  unfoldable pub encapsulate :
      Environment → Base byte_type → Outcome (Base byte_type × Base byte_type)
  encapsulate env recipient_pk = do
    throw_if (not (size recipient_pk == kem.publickeybytes)) logic_error
    pk ← read_at 0 kem.publickeybytes recipient_pk.vec
    (ct, ss) ← or_throw (kem.enc env.randombytes_buf pk) runtime_error
    ok (record { vec = ss }, record { vec = ct })

  unfoldable pub decapsulate : Base byte_type → Base byte_type → Outcome Bytes
  decapsulate ciphertext secret_key = do
    throw_if (not (size ciphertext == kem.ciphertextbytes)) logic_error
    throw_if (not (size secret_key == kem.secretkeybytes)) logic_error
    ct ← read_at 0 kem.ciphertextbytes ciphertext.vec
    sk ← read_at 0 kem.secretkeybytes secret_key.vec
    or_throw (kem.dec ct sk) logic_error
