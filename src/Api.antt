-- ===== src/Api.antt =====
-- internal/api: the HTTP interface.
pub mod Reply
pub mod Middleware
pub mod Handlers
pub mod Reads
pub mod Limits
pub mod Router
