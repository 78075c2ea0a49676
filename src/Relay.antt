-- ===== src/Relay.antt =====
-- internal/relay: the local SOCKS5 relay and the tracker of its tunnels.
pub mod Handshake
pub mod Server
pub mod Tracker
