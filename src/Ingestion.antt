-- ===== src/Ingestion.antt =====
-- core/vericlose/ingestion and core/vericlose/adapters: from the rows of a file to events.
pub mod Mappings
pub mod Contracts
pub mod Validation
pub mod Normalization
pub mod Examples
