-- ===== src/StrictTypes.antt =====
-- strict_types: the decoded value, and the numbers and collections that are read from it.
pub mod Text
pub mod Value
pub mod Numbers
pub mod Compare
pub mod Unicode
pub mod ParsedType
pub mod Decode
pub mod Encode
pub mod Canonical
pub mod Fuel
