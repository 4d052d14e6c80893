-- ===== src/StrictTypes/Fuel.antt =====
-- What the fuel of the decoder of strict_types/decode.go does: with more of it nothing changes but
-- its lack, and above the height of a type there is enough.
pub mod More
pub mod Deeper
pub mod Depth
pub mod Leaves
pub mod Texts
pub mod Parts
pub mod Ends
