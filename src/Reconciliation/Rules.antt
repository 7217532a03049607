-- ===== src/Reconciliation/Rules.antt =====
-- core/vericlose/reconciliation/rules: the support score and the proof of one settlement, in the
-- steps of `analyze_settlement`. `bounded_grouping` is in `Grouping`.
pub mod Support
pub mod Checks
pub mod Flags
pub mod Gateway
pub mod Bank
pub mod Erp
pub mod Settlement
