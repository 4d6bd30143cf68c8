-- ===== src/Client.antt =====
-- client/src: the client for browsers.
pub mod Errors
pub mod Provider
pub mod Fetch
pub mod Socket
pub mod Websocket
