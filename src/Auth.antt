-- ===== src/Auth.antt =====
-- The token issuer of internal/codexauth: its tables (store.go) and the handlers over them.
pub mod Refresh
pub mod Device
pub mod Tokens
