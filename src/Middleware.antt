-- ===== src/Middleware.antt =====
-- middleware/: the HTTP middleware.
pub mod Http
pub mod RateLimit
pub mod Cors
pub mod Guards
pub mod Chain
