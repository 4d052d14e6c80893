-- ===== src/Runs.antt =====
-- The development at concrete inputs: tests, and the theorems applied.
mod History
pub mod Anchored
mod Commitments
mod Schemas
mod Codecs
mod Container
mod Stores
mod StrictTypes
mod Files
mod Texts
mod Libraries
