-- ===== src/Server.antt =====
-- The server: how users are authenticated, the store of store/memory.go, the sessions and shares of
-- model/, the ids of linkgen/linkgen.go, the handlers and routes of api/, and the rate limiter of
-- ratelimit/ratelimit.go.
pub mod Texts
pub mod Auth
pub mod Action
pub mod Store
pub mod Session
pub mod Shares
pub mod Linkgen
pub mod Db
pub mod Handlers
pub mod Fetch
pub mod Limiter
pub mod Config
pub mod Api
