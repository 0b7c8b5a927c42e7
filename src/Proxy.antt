-- ===== src/Proxy.antt =====
-- The SOCKS proxy of examples/: the relay between sockets of lwIP and of the host.
pub mod Connection
pub mod Crossbar
pub mod Relay
pub mod Relays
pub mod Session
pub mod Socks
pub mod Server
mod Tests
