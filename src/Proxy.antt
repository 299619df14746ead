-- ===== src/Proxy.antt =====
-- The handlers of jwt/proxy_handlers.go.
pub mod Lifecycle
pub mod Through
pub mod Router
pub mod Verifier
pub mod Signer
pub mod Server
pub mod Construct
pub mod Forward
