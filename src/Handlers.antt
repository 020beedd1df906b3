-- ===== src/Handlers.antt =====
-- The handlers of pkg/channeld (message.go, entity.go, message_spatial.go, message_debug.go), a module
-- for each group.
pub mod Subscribe
pub mod Lifecycle
pub mod Update
pub mod Forward
pub mod Groups
pub mod Spatial
pub mod Auth
