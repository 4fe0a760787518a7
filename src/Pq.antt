-- ===== src/Pq.antt =====
-- pq/: key encapsulation.
pub mod Kem
pub mod MlKem768
