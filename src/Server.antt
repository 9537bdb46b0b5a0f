-- ===== src/Server.antt =====
-- internal/server/server.go and cache.go
pub mod Auth
pub mod Cache
pub mod Contract
pub mod Redis
pub mod Serve
pub mod Handlers
pub mod Requests
pub mod Chain
pub mod Guards
pub mod Publish
pub mod Republish
pub mod Examples
pub mod Valid
pub mod Histories
pub mod Coherent
