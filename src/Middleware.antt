-- ===== src/Middleware.antt =====
-- The middleware, src/middleware and include/middleware.
pub mod PerIpConnectionLimiter
pub mod RateLimiter
