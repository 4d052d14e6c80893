-- ===== src/Consignment.antt =====
-- consignment: the client-side validation of a contract's history.
pub mod Types
pub mod Operation
pub mod Outpoints
pub mod Anchor
pub mod Carried
pub mod History
pub mod Transaction
pub mod Witnessed
pub mod Trusted
pub mod Steps
pub mod Assembled
pub mod Held
pub mod Live
pub mod Supply
pub mod Spendable
pub mod Inputs
pub mod Spending
pub mod Ancestors
pub mod Worklist
pub mod Reachable
pub mod Ancestry
pub mod Projection
pub mod Backing
pub mod Shown
pub mod Projected
pub mod Received
