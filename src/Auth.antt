-- ===== src/Auth.antt =====
-- Accounts and their tokens.
pub mod AgentTokens
pub mod DeviceFlow
