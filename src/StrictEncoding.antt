-- ===== src/StrictEncoding.antt =====
-- strict_encoding: the binary primitives of strict encoding 1.0.4.
pub mod Encoder
pub mod Decoder
pub mod RoundTrip
pub mod Canonical
