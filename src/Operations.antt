-- ===== src/Operations.antt =====
-- operations: commitments of decoded operations.
pub mod Fields
pub mod Secrets
pub mod Truncation
pub mod Commitments
pub mod Genesis
pub mod Disclose
pub mod Sizes
pub mod Binding
pub mod Bundle
pub mod InputValues
pub mod Disclosure
pub mod Opout
