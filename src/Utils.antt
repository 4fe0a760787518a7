-- ===== src/Utils.antt =====
-- utils/: encodings, packing and small helpers.
pub mod Variant
pub mod Base64
pub mod Hex
pub mod Packer
pub mod FromSkToPk
pub mod Console
pub mod Helpers
