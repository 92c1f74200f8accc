-- ===== src/Plan.antt =====
-- src/plan-runtime.ts and src/plan-proposal.ts: plans, their actions and the predictions that they
-- make. The input of an action and the reference of an operation are opaque.
pub mod Proposal
pub mod Capture
pub mod Opportunity
pub mod State
pub mod Access
pub mod Timing
pub mod Readiness
pub mod Operations
pub mod Replacement
pub mod Materialize
pub mod Commit
pub mod Apply
pub mod Selections
mod Examples
