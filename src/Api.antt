-- ===== src/Api.antt =====
-- internal/api: the handlers, the routes and the answers to errors.
pub mod Response
pub mod Handlers
pub mod Routes
pub mod Guarded
pub mod Changing
pub mod Authorized
pub mod Publishing
pub mod Starting
pub mod Creating
pub mod RoundTrip
pub mod Journey
