-- ===== src/Asymmetric.antt =====
-- asymmetric/: key pairs, boxes and signatures.
pub mod KeyPair
pub mod Box
pub mod SealedBox
pub mod Sign
