-- ===== src/Tests.antt =====
-- The interfaces at concrete functions, and the theorems at concrete inputs.
mod Instances
mod Wire
mod Extensions
mod Streams
mod Mux
mod Handshake
mod Lock
mod Refused
mod Programs
mod Server
mod Routes
mod Clients
mod Adapters
mod Fetches
mod Sessions
