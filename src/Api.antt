-- ===== src/Api.antt =====
-- apps/api: the HTTP service of the ledger.
pub mod Ledger
pub mod Reports
pub mod Queries
pub mod Kafka
