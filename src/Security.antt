-- ===== src/Security.antt =====
-- internal/security: scopes and principals, paths, rate limits, the token registry.
pub mod Scope
pub mod Access
pub mod Path
pub mod Policy
pub mod Ssrf
pub mod RateLimit
pub mod Digest
pub mod Credentials
pub mod Registry
pub mod Requests
pub mod Middleware
mod Tests
mod TokenTests
mod MiddlewareTests
mod SsrfTests
