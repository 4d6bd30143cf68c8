-- ===== src/Server.antt =====
-- server/src: the proxy server.
pub mod Anyhow
pub mod Texts
pub mod Address
pub mod Config
pub mod Resolve
pub mod Http
pub mod Clients
pub mod Wispnet
pub mod Streams
pub mod Stats
pub mod Proxy
pub mod Session
