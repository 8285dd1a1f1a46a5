-- ===== src/Middleware.antt =====
-- internal/middleware: authentication, request ids and HTTP metrics.
pub mod Keycloak
pub mod Correlation
pub mod Tokens
