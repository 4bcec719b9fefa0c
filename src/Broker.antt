-- ===== src/Broker.antt =====
-- The order subsystem.
pub mod Types
pub mod Quota
pub mod Orders
pub mod Positions
pub mod Cooldowns
pub mod Tokens
pub mod Risk
pub mod Inbox
pub mod AgentCommands
pub mod Deals
pub mod InboxWorker
pub mod Samples
pub mod Watchdog
