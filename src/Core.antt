-- ===== src/Core.antt =====
-- packages/accounting-core: pure double-entry posting and balances.
pub mod Types
pub mod Money
pub mod Posting
pub mod Balance
pub mod Deltas
pub mod Tests
