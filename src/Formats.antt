-- ===== src/Formats.antt =====
-- The transport formats of consignment.
pub mod Base85
pub mod ArmorLines
pub mod ArmorChecks
pub mod ArmorHeaders
pub mod ArmorRoundTrip
pub mod Base85RoundTrip
pub mod Text
pub mod Words
pub mod Numerals
pub mod Columns
pub mod Armor
pub mod ConsignmentId
pub mod Container
pub mod ContainerChecks
pub mod Base85Bytes
pub mod ContainerRewritten
pub mod ContainerRoundTrip
pub mod ContainerFile
pub mod ArmorParsed
pub mod ContainerRead
pub mod LibraryId
