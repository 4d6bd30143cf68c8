-- ===== src/Extension.antt =====
-- wisp/src/extensions: the protocol extensions. Each comes as the extension itself, which a peer
-- encodes into its INFO packet, and as the builder that makes it or reads the peer's.
pub mod Motd
pub mod Password
pub mod Cert
pub mod Any
pub mod Erased
pub mod Known
