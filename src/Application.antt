-- ===== src/Application.antt =====
-- core/vericlose/application and core/vericlose/audit: the services over the persisted run.
pub mod Host
pub mod Audit
pub mod Store
pub mod Cases
pub mod Workflow
pub mod Reconcile
pub mod Samples
pub mod Examples
