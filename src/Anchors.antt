-- ===== src/Anchors.antt =====
-- anchors: multi-protocol commitments and the scripts that carry them.
pub mod Mpc
pub mod Checked
pub mod OneMessage
pub mod Scripts
pub mod Tapret
pub mod Partner
