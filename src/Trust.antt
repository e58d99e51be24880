-- ===== src/Trust.antt =====
-- The trust layer of nwep/src/trust: BLS keys and signatures (Trust/Bls.antt), checkpoints and the
-- genesis ceremony (Trust/Checkpoint.antt), anchors (Trust/Anchor.antt), the trust store
-- (Trust/Store.antt). The cryptography and the encodings are libnwep's.
pub mod Bls
pub mod Checkpoint
pub mod Genesis
pub mod Anchor
pub mod Store
pub mod Quorum
mod Tests
