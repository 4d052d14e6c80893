-- ===== src/Schemas.antt =====
-- schemas: the standard schemas, and the validation of operations against them.
pub mod Types
pub mod Access
pub mod State
pub mod Owned
pub mod Script
pub mod Outputs
pub mod Transition
pub mod Amounts
pub mod Disclosed
pub mod Resolved
pub mod Supplies
pub mod ScriptRun
pub mod Rules
pub mod Conservation
pub mod Issue
pub mod Commit
