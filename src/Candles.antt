-- ===== src/Candles.antt =====
-- Candles: the buckets of a trading session, and the bars of the longer timeframes.
pub mod Bucketing
pub mod Aggregate
pub mod Builder
