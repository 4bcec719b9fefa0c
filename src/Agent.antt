-- ===== src/Agent.antt =====
-- The agent on the user's machine: its buffer, and the commands that it executes.
pub mod Buffer
pub mod Runner
