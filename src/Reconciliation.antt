-- ===== src/Reconciliation.antt =====
-- core/vericlose/reconciliation: from the canonical events of a run to its decisions.
pub mod Platform
pub mod Policy
pub mod Proposals
pub mod Indexes
pub mod Context
pub mod Grouping
pub mod Rules
pub mod RiskGate
pub mod ExceptionFactory
pub mod Pipeline
pub mod Clearance
pub mod Outcomes
pub mod Samples
mod Runs
mod Examples
