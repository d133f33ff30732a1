-- ===== src/Middleware.antt =====
-- crates/router/src/middleware: the proxy in front of the workers.
pub mod Json
pub mod Context
pub mod Header
pub mod Error
pub mod Handler
