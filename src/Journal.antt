-- ===== src/Journal.antt =====
-- The trade journal.
pub mod Pnl
