-- ===== src/World.antt =====
-- The state of the process and what every handler uses.
pub mod Types
pub mod Access
pub mod Acl
pub mod Send
pub mod Rights
