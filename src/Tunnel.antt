-- ===== src/Tunnel.antt =====
-- Tunnels to local agents (internal/tunnel): the header of a stream, and the registry of tunnels.
pub mod Stream
pub mod Registry
