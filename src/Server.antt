-- ===== src/Server.antt =====
-- server/Server.go: the group of listeners and sites that follows a configuration.
pub mod Listeners
pub mod Plugins
pub mod Sites
pub mod Life
pub mod Requests
