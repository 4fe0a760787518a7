-- ===== src/Tests/Parameters.antt =====
-- Small functions in the place of libsodium's, with every law that the theorems ask for.
pub mod Sealing
pub mod Text
pub mod Memory
pub mod Chunks
pub mod Hashes
pub mod Curves
pub mod Derived
pub use sylvite.Tests.Parameters.Sealing.{clock, box, box_laws, aead, aead_laws}
pub use sylvite.Tests.Parameters.Text.{codec, coding}
pub use sylvite.Tests.Parameters.Memory.{memory, memory_laws}
pub use sylvite.Tests.Parameters.Chunks.{streams, stream_laws}
pub use sylvite.Tests.Parameters.Derived.{derivation, derivation_laws, kem, kem_laws}
pub use sylvite.Tests.Parameters.Hashes.{
  auth, auth_laws, hasher, hasher_laws, generic_hash, generic_hash_laws,
}
pub use sylvite.Tests.Parameters.Curves.{
  curve, curve_laws, IsTwin, signing, signing_laws, IsRepeated,
}
