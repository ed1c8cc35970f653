-- ===== src/Gateway.antt =====
-- The exec gateway (internal/codexexecgateway): executors connect, bridge sessions are multiplexed
-- over an executor's connection, and capability tokens are revoked by turn.
pub mod Revocation
pub mod Mux
pub mod Bridge
