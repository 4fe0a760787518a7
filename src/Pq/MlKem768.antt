-- ===== src/Pq/MlKem768.antt =====
-- pq/kem.hpp, namespace MlKem768: the code of XWing with the other functions; the shared secret is a Key.
pub mod Hybrid
use sylvite.Common.{ℕ, Outcome, ok, ◌>>=◌}
use sylvite.Sodium.Environment.{Environment}
use sylvite.Internal.Base.{Base, byte_type}
use sylvite.Sodium.Kem.{Kem}
use sylvite.Pq.Kem as XWing
use sylvite.Pq.Kem.{KeyPair}

module _ (kem : Kem) where
  abbrev pub public_key_size : ℕ
  public_key_size = kem.publickeybytes

  abbrev pub secret_key_size : ℕ
  secret_key_size = kem.secretkeybytes

  abbrev pub shared_key_size : ℕ
  shared_key_size = kem.sharedsecretbytes

  abbrev pub ciphertext_size : ℕ
  ciphertext_size = kem.ciphertextbytes

  unfoldable pub generate_keypair : Environment → Outcome KeyPair
  generate_keypair = XWing.generate_keypair kem

  unfoldable pub encapsulate :
      Environment → Base byte_type → Outcome (Base byte_type × Base byte_type)
  encapsulate = XWing.encapsulate kem

  unfoldable pub decapsulate : Base byte_type → Base byte_type → Outcome (Base byte_type)
  decapsulate ciphertext secret_key =
      XWing.decapsulate kem ciphertext secret_key >>= λ shared. ok (record { vec = shared })
