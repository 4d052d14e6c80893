-- ===== src/StrictTypes/Canonical.antt =====
-- The decoder of strict_types/decode.go takes nothing that the encoder of strict_types/encode.go
-- would not write.
pub mod Wrote
pub mod Character
pub mod Leaves
pub mod Parts
pub mod Confined
pub mod Bodies
pub mod Lists
pub mod Whole
pub mod Keys
